-- ===== src/App.antt =====
-- native/smbctl/src/main.rs: the application, its files and its server processes.
pub mod World
pub mod Rules
pub mod Steps
pub mod Template
pub mod Templates
pub mod Server
pub mod Conf
pub mod Tokens
pub mod Card
pub mod Control
pub mod Frame
pub mod Commands
pub mod History
pub mod Untouched
pub mod Legacy
pub mod Log
pub mod Version
pub mod Queries
pub mod Refused
pub mod Dispatch
pub mod Main
pub mod Tests
