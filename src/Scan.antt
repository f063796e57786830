-- ===== src/Scan.antt =====
-- src/core/scan: the tree that a scan builds, and the scan.
pub mod Tree
pub mod Totals
pub mod Engine
mod Tests
