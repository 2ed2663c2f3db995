-- ===== src/Inventory.antt =====
-- cmd/swinv and internal/model: what a scan says about itself and about its sources.
pub mod Heartbeat
pub mod Sources
mod Tests
