-- ===== src/Tests.antt =====
-- Runs of the operations, and the theorems at concrete data: a small server, files and caches.
mod Server
mod Caches
mod Downloads
mod Changes
mod Uploads
mod Conflicts
mod Walks
mod Accounts
mod Clients
mod Moves
