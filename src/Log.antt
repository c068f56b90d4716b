-- ===== src/Log.antt =====
-- crates/relos-log: the shared log.
pub mod Chain
pub mod Decimal
pub mod MetaStore
pub mod Loglet
pub mod MemoryLoglet
pub mod NativeLoglet
pub mod VirtualLog
