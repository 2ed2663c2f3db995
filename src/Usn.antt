-- ===== src/Usn.antt =====
-- internal/usn: files from Master File Table records.
pub mod Record
pub mod FilePath
pub mod Enumerate
pub mod Volumes
mod Tests
