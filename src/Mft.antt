-- ===== src/Mft.antt =====
-- src/platform/windows/mft/ntfs_mft.cpp: how files are read from the master file table of NTFS.
pub mod Boot
pub mod Fixup
pub mod Record
pub mod Stream
mod Tests
