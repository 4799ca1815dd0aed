-- ===== src/Http.antt =====
-- The HTTP server: include/server/http and src/server/http.
pub mod Parser
pub mod Response
pub mod Router
pub mod Connection
mod Examples
