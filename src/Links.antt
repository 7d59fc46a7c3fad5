-- ===== src/Links.antt =====
-- cache.go, the methods of the drive that find links and their key rings.
mod Defs
pub mod Server
pub mod Reading
pub mod KeyRings
pub mod Uncached
pub mod Invariant
unfoldable pub use Defs.*
