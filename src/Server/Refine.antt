-- ===== src/Server/Refine.antt =====
-- server.go: the operations on the server against the roster of its client slots.
pub mod Send
pub mod Handshake
pub mod Process
pub mod Sweep
pub mod Stop
pub mod Api
