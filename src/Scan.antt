-- ===== src/Scan.antt =====
-- internal/scan and internal/pathnorm: which package owns a file, and from which root it came.
pub mod PathNorm
pub mod Provenance
pub mod Ownership
pub mod Owners
mod Tests
