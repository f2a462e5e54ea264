-- ===== src/Applications.antt =====
-- examples/applications: the Credit-Control sessions of the client and its loop, and the answers of the server.
pub mod Sessions
pub mod Order
pub mod Server
pub mod Client
pub mod Ending
pub mod Cca
pub mod Answers
mod Forms
mod Examples
