-- ===== src/Mft/Boot.antt =====
-- `readBootSector` of src/platform/windows/mft/ntfs_mft.cpp, behind the calls that read the sector.
use vaulkeeper.Prelude.{Option, if◌then◌else◌, ltb, none, some, ℕ, ◌%◌, ◌&&◌, ◌*◌, ◌-◌, ◌==◌, ◌^◌}
use vaulkeeper.Prelude.Bytes.{Bytes, from_le, slice}

pub record MftBootInfo : Type 0 where
  pub bytes_per_sector : ℕ
  pub sectors_per_cluster : ℕ
  pub clusters_per_mft_record : ℕ
  pub mft_start_cluster : ℕ
  pub total_sectors : ℕ
  pub record_size_bytes : ℕ

-- The signed byte at 0x40 counts clusters above 0, and is the negated exponent of a size otherwise.
-- None stands for a shift by 32 and more, which has no defined value.
abbrev pub record_size_of : ℕ → ℕ → ℕ → Option ℕ
record_size_of clusters bytes_per_sector sectors_per_cluster =
    if ltb 0 clusters && ltb clusters 128
    then some (clusters * bytes_per_sector * sectors_per_cluster % 2 ^ 32)
    else if clusters == 0
    then some 1
    else if ltb (256 - clusters) 32
    then some (2 ^ (256 - clusters))
    else none

abbrev pub boot_info : Bytes → ℕ → MftBootInfo
boot_info sector record_size = record {
  bytes_per_sector = from_le (slice 0x0B 2 sector);
  sectors_per_cluster = from_le (slice 0x0D 1 sector);
  clusters_per_mft_record =
      (let clusters = from_le (slice 0x40 1 sector) in if ltb clusters 128 then clusters else 0);
  total_sectors = from_le (slice 0x28 8 sector);
  mft_start_cluster = from_le (slice 0x30 8 sector);
  record_size_bytes = record_size;
}

abbrev pub boot_sized : Bytes → Option ℕ → Option MftBootInfo
boot_sized sector none = none
boot_sized sector (some record_size) = some (boot_info sector record_size)

unfoldable pub read_boot_sector : Bytes → Option MftBootInfo
read_boot_sector sector = boot_sized sector (
    record_size_of (from_le (slice 0x40 1 sector)) (from_le (slice 0x0B 2 sector))
      (from_le (slice 0x0D 1 sector)))
