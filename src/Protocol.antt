-- ===== src/Protocol.antt =====
-- crates/protocol: the frames of a connection and the readers over their order.
pub mod Envelope
pub mod Response
pub mod Frame
pub mod Entrainment
pub mod ErrorCode
mod Examples
