-- ===== src/Updater.antt =====
-- src/updater: whether a release is newer than the one installed.
pub mod Version
mod Tests
