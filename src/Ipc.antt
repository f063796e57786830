-- ===== src/Ipc.antt =====
-- src/core/ipc: the messages that the command line and the interface exchange with the elevated
-- agent, and their keyed checksum.
pub mod Checksum
pub mod Message
pub mod Pipe
mod Tests
