-- ===== src/Service.antt =====
-- internal/service: the services a host exposes.
pub mod SocketTable
pub mod Cgroup
pub mod Exposure
pub mod Backend
mod Tests
