-- ===== src/ChatWebsocket.antt =====
-- server/src/api/chat_websocket.cpp.
pub mod Messages
pub mod Handlers
pub mod Payloads
pub mod History
pub mod Ends
pub mod Session
pub mod Invariant
pub mod Steps
pub mod Greeting
pub mod Delivery
pub mod Queue
pub mod Drained
pub mod Progress
pub mod Overtaking
