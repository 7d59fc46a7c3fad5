-- ===== src/Invariant.antt =====
-- The cache of a drive at work: what every method of the drive leaves of it.
pub mod Reads
pub mod Writes
pub mod Histories
