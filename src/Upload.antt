-- ===== src/Upload.antt =====
-- file_upload.go: a draft, its blocks, and the commit of the revision.
mod Tokens
pub mod Arrivals
mod Batch
pub mod Accepted
mod Blocks
pub mod Chunks
mod Sent
mod Gathered
pub mod Seals
pub mod Collection
mod Conflict
pub mod Draft
pub mod Drafts
mod Commit
pub mod Committed
mod ByPath
unfoldable pub use Tokens.*
unfoldable pub use Batch.*
unfoldable pub use Blocks.*
unfoldable pub use Conflict.*
unfoldable pub use Draft.*
unfoldable pub use Commit.*
unfoldable pub use ByPath.*
