-- ===== src/Proxy.antt =====
-- Package internal/proxy: how a request goes through the bus and to the server behind it.
pub mod Forward
pub mod Upstream
pub mod Plain
pub mod Tunnel
pub mod Stream
pub mod WebSocket
mod Tests
