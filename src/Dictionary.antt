-- ===== src/Dictionary.antt =====
-- dictionary.go: the names and types of messages and AVPs.
pub mod Types
pub mod Build
pub mod Queries
pub mod Typing
pub mod Entries
pub mod Laws
pub mod Naming
mod Examples
