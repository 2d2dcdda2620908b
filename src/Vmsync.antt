-- ===== src/Vmsync.antt =====
-- The sync of CVEs with VMaaS (vmsync/).
pub mod Api
pub mod Sync
