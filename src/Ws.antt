-- ===== src/Ws.antt =====
-- The WebSocket server: include/server/ws and src/server/ws.
pub mod Types
pub mod CloseCode
pub mod Frame
pub mod Sha1
pub mod Base64
pub mod Handshake
pub mod Session
pub mod Server
