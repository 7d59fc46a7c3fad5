-- ===== src/Trash.antt =====
-- delete.go: files and folders go to the trash, and the trash is emptied.
pub mod Defs
pub mod Evicted
unfoldable pub use Defs.*
