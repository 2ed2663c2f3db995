-- ===== src/Model.antt =====
-- internal/model: components, their merging and comparison.
pub mod Sets
pub mod Component
pub mod Order
pub mod Merge
pub mod Delta
mod Tests
