-- ===== src/Quarantine.antt =====
-- src/core/quarantine: files moved out of the way until they are restored, discarded or expire, and
-- the JSON index that keeps them across runs.
pub mod Index
pub mod Json
pub mod Store
mod Tests
