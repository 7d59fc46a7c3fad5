-- ===== src/Download.antt =====
-- file_download.go and `decryptBlockIntoBuffer` of crypto.go: reading a file block by block.
mod Defs
pub mod Blocks
pub mod Seek
pub mod Landing
pub mod Offset
pub mod Mismatch
unfoldable pub use Defs.*
