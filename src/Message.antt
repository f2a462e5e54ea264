-- ===== src/Message.antt =====
-- message.go: messages, their wire form, and the two readers that cut a byte stream into messages.
pub mod Types
pub mod Build
pub mod Query
pub mod Codec
pub mod RoundTrip
pub mod Decode
pub mod Built
pub mod Answers
pub mod Sound
pub mod Shape
pub mod Cloning
pub mod Equality
pub mod Examples
