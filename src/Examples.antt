-- ===== src/Examples.antt =====
-- The development run on concrete inputs.
pub mod Backend
pub mod Server
pub mod Accounts
pub mod Texts
pub mod Messages
pub mod Services
pub mod Endpoints
pub mod Shared
pub mod Chat
pub mod Writes
pub mod Rooms
pub mod Database
pub mod Http
pub mod Startup
