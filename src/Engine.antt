-- ===== src/Engine.antt =====
-- crates/relos-engine: the apply loop, and the middlewares over it.
pub mod Interface
pub mod Base
pub mod Batching
pub mod ViewTracking
pub mod Stack
pub mod Observer
