-- ===== src/Api.antt =====
-- server/internal/api: the WebSocket side of the server.
pub mod SendQueue
pub mod RateLimit
pub mod Dispatch
pub mod Surface
pub mod Connection
pub mod Chat
pub mod Hub
pub mod Server
