-- ===== src/Scheduler.antt =====
-- src/core/scheduler: when a task is due.
pub mod Cron
pub mod Loop
mod Tests
