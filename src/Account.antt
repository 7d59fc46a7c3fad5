-- ===== src/Account.antt =====
-- common/ and the rest of drive.go: configuration, login, the opening of a drive, and logout.
pub mod Config
pub mod Service
mod Login
mod Opening
pub mod Sessions
pub mod RoundTrip
pub mod MainShare
unfoldable pub use Config.*
unfoldable pub use Login.*
unfoldable pub use Opening.*
