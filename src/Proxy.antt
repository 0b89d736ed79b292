-- ===== src/Proxy.antt =====
-- proxylab-handout/proxy.c: a web proxy with a thread for each connection.
pub mod Stream
pub mod Text
pub mod Relay
pub mod Request
pub mod Socket
pub mod Process
pub mod Main
mod Tests
