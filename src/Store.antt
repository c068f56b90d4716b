-- ===== src/Store.antt =====
-- crates/relos-store: the local state of a replica.
pub mod Map
pub mod Memory
