-- ===== src/Core.antt =====
-- crates/relos-core: positions, entries, errors.
mod Errors
mod Effects
mod Entries
pub use Errors.*
unfoldable pub use Entries.*
pub use Effects.*
