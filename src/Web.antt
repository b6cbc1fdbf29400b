-- ===== src/Web.antt =====
-- crates/web: the node's web surface.
pub mod Csv
mod Examples
