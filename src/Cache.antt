-- ===== src/Cache.antt =====
-- cache.go: the cache of links with their key rings, and the map of cached children.
-- The lock and the pointers are left out: every method holds the lock for its whole body, and an
-- entry is replaced only by `insert_entry`, which its callers reach only where `get` found none.
mod Defs
pub mod Consistency
pub mod Removal
pub mod Detach
pub mod Eviction
unfoldable pub use Defs.*
