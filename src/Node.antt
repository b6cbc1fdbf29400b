-- ===== src/Node.antt =====
-- crates/node: the node's request path.
pub mod Authorizer
pub mod ModInstall
pub mod Entrain
pub mod Engine
pub mod Limits
pub mod Stream
pub mod Execute
pub mod Budget
pub mod Knock
pub mod Screen
pub mod Sources
pub mod Fields
pub mod Projection
mod Examples
