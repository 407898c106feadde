-- ===== src/Os.antt =====
-- native/smbctl/src/os.rs: the trusted interfaces, the process table and the listening sockets.
pub mod Tests
pub mod Network
pub mod Interfaces
pub mod Process
pub mod Sockets
pub mod Terminate
pub mod Processes
pub mod Owner
pub mod Lock
pub mod Descriptors
pub mod Found
pub mod Sample
