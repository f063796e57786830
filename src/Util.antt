-- ===== src/Util.antt =====
-- src/core/util: errors, and the small containers the other parts share.
pub mod Error
pub mod Interner
pub mod Pool
pub mod Time
mod Tests
