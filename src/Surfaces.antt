-- ===== src/Surfaces.antt =====
-- crates/surfaces: the surfaces of a node that are tables.
pub mod Wire
pub mod Outbox
pub mod Worker
mod Examples
