-- ===== src/Reader.antt =====
-- message.go: `MessageByteReader` and `MessageStreamReader`.
pub mod Bytewise
pub mod Stream
pub mod Delivery
pub mod Extract
pub mod Whole
pub mod Sent
pub mod Chunks
mod Examples
