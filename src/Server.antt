-- ===== src/Server.antt =====
-- internal/api/server.go: the HTTP server.
pub mod Attempts
pub mod Outside
pub mod Shadows
pub mod Settle
pub mod Chat
pub mod Handle
pub mod Params
pub mod Reads
pub mod Mux
pub mod Api
pub mod Events
