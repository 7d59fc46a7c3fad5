-- ===== src/Search.antt =====
-- search.go and search_recursive.go: links by name, in one folder and below one.
pub mod Defs
pub mod Found
pub mod Folder
unfoldable pub use Defs.*
