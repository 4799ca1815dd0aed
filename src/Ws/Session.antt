-- ===== src/Ws/Session.antt =====
-- One WebSocket connection: `WsSession` of include/server/ws/ws_session.hpp and
-- src/server/ws/ws_session.cpp. `State` holds the fields, the public calls and `DoClose`, `Send` the
-- strand's queue, `Receive` the frames.
pub mod State
pub mod Send
pub mod Receive
pub mod Heartbeat
pub mod Upgrade
pub mod Upgraded
pub mod Effects
pub mod Machine
pub mod Order
pub mod Front
pub mod Closing
pub mod Answers
mod Examples
mod UpgradeExamples
