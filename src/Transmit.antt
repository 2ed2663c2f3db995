-- ===== src/Transmit.antt =====
-- internal/transmit: the client that uploads a spooled scan.
pub mod Payload
pub mod Batches
pub mod Name
mod Tests
pub mod Send
pub mod Request
pub mod Spool
pub mod Retry
pub mod Pending
