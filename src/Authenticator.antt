-- ===== src/Authenticator.antt =====
-- crates/authenticator: the decider chain in front of every request, and the tables it reads.
pub mod Types
pub mod Db
pub mod Clock
pub mod Fingerprint
pub mod Policy
pub mod Cache
pub mod Human
pub mod Inbox
pub mod Chain
mod Examples
