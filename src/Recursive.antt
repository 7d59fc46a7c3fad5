-- ===== src/Recursive.antt =====
-- folder_recursive.go: the walk over a tree of links, which lists paths and can download.
mod Defs
pub mod Paths
pub mod Walks
unfoldable pub use Defs.*
