-- ===== src/Servers.antt =====
-- The servers (store.servers/src): sessions, HTTP with routes behind a token, web sockets.
pub mod Session
pub mod Http
pub mod Assets
pub mod HttpServer
pub mod Secure
pub mod WebSocket
