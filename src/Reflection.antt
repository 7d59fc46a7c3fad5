-- ===== src/Reflection.antt =====
-- compat_reflect.go, and the two functions of file_upload.go and folder.go that call methods of
-- the client by their names.
pub mod Values
mod Setters
pub mod Settings
pub mod Fits
pub mod Refines
mod Calls
mod Compat
unfoldable pub use Calls.*
unfoldable pub use Compat.*
unfoldable pub use Setters.*
