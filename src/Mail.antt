-- ===== src/Mail.antt =====
-- mail.go: an email by a draft, its attachments, and the draft's sending.
mod Defs
pub mod Reports
unfoldable pub use Defs.*
