-- ===== src/Server.antt =====
-- The server under server/.
pub mod Signals
pub mod Request
pub mod Acceptor
pub mod Descriptors
pub mod Timing
pub mod Epoll
pub mod Select
pub mod Serve
pub mod Thread
pub mod Main
