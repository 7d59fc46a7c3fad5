-- ===== src/Folder.antt =====
-- folder.go: listing a folder, new folders, and moves.
pub mod Defs
pub mod Listing
pub mod Moves
unfoldable pub use Defs.*
