-- ===== src/Server.antt =====
-- crates/relos-server: the gRPC service over the tables.
pub mod Messages
pub mod Conversions
pub mod Service
pub mod Config
pub mod Startup
pub mod Demo
