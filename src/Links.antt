-- ===== src/Links.antt =====
-- internal/pelink: the DLLs that a Windows binary loads.
pub mod Imports
pub mod Prober
pub mod Probe
mod Tests
