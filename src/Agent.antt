-- ===== src/Agent.antt =====
-- agent/: the identity of a peer, the state of a connection, and the loop of its manager.
pub mod Identity
pub mod Manager
pub mod States
pub mod Run
pub mod Sending
pub mod Loop
pub mod Quiet
pub mod Connection
pub mod Closing
pub mod Clients
pub mod Receiver
pub mod Reports
pub mod Answering
pub mod Establishing
pub mod Watchdog
pub mod Accepting
pub mod Starting
mod Examples
mod Greetings
