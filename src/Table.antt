-- ===== src/Table.antt =====
-- crates/relos-table: tables over the engine.
pub mod Schema
pub mod Command
pub mod Keys
pub mod Applicator
pub mod Client
pub mod Replicated
