-- ===== src/Tests.antt =====
-- The theorems at concrete inputs: of the log, the store, the engine and the tables.
mod Log
mod Store
mod Engine
mod Table
mod Failure
mod Server
mod Middleware
mod Native
mod Replication
mod OverVirtualLog
mod Startup
mod Keys
