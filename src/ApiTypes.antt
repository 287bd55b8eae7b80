-- ===== src/ApiTypes.antt =====
-- server/include/api/api_types.hpp and server/src/api/api_types.cpp: the objects that clients and
-- the server exchange, as JSON.
pub mod Json
pub mod Incoming
pub mod Outgoing
pub mod Events
pub mod Client
pub mod Usernames
