-- ===== src/Mft/Fixup.antt =====
-- `applyUpdateSequence` of src/platform/windows/mft/ntfs_mft.cpp. A `memcpy` that leaves the record is
-- told apart from all else; the offset and count of the array of replacements, of 16 bits each, cannot
-- make a sum of 32 bits wrap.
pub mod Inside
pub mod Torn
use vaulkeeper.Prelude.{
  Option, drop, if◌then◌else◌, leb, length, ltb, none, some, suc, take, zero, ℕ, ◌%◌, ◌*◌, ◌++◌,
  ◌+◌, ◌-◌, ◌==◌, ◌^◌,
}
use vaulkeeper.Prelude.Bytes.{Bytes, bytes_eq, from_le, slice}

-- `memcpy` of `n` bytes at an offset in a buffer, if the buffer has them.
unfoldable pub copy : ℕ → ℕ → Bytes → Option Bytes
copy at n bytes = if leb (at + n) (length bytes) then some (slice at n bytes) else none

-- `memcpy` of two bytes into a record.
unfoldable pub overwrite : ℕ → Bytes → Bytes → Bytes
overwrite at two bytes = take at bytes ++ (two ++ drop (suc (suc at)) bytes)

pub data Fixed : Type 0 where
  refused : Fixed
  fixed : Bytes → Fixed
  outside : Fixed

-- `(i + 1) * sectorSize - 2` in 32 bits.
abbrev pub sector_end : ℕ → ℕ → ℕ
sector_end sector_size i = ((i + 1) * sector_size + (2 ^ 32 - 2)) % 2 ^ 32

-- One sector, with its tail and its replacement. The rest of the loop takes the record.
abbrev pub fix_tail : (Bytes → Fixed) → ℕ → Bytes → Bytes → Option Bytes → Option Bytes → Fixed
fix_tail later at signature bytes none replacement = outside
fix_tail later at signature bytes (some tail) none =
    if bytes_eq tail signature then outside else refused
fix_tail later at signature bytes (some tail) (some two) =
    if bytes_eq tail signature then later (overwrite at two bytes) else refused

-- The loop, from sector `i` on with `left` sectors to go.
unfoldable pub fix_sectors : ℕ → ℕ → ℕ → ℕ → Bytes → Bytes → Fixed
unfolding copy overwrite bytes_eq
fix_sectors zero i usa_offset sector_size signature bytes = fixed bytes
fix_sectors (suc left) i usa_offset sector_size signature bytes =
    fix_tail (fix_sectors left (suc i) usa_offset sector_size signature) (sector_end sector_size i)
      signature bytes (copy (sector_end sector_size i) 2 bytes)
      (copy (usa_offset + 2 * (i + 1)) 2 bytes)

abbrev pub fix_signed : ℕ → ℕ → ℕ → Bytes → Option Bytes → Fixed
fix_signed usa_offset covered sector_size bytes none = outside
fix_signed usa_offset covered sector_size bytes (some signature) =
    fix_sectors covered 0 usa_offset sector_size signature bytes

-- The guards, with the offset and the count of the array.
unfoldable pub fix_array : ℕ → ℕ → ℕ → ℕ → Bytes → Fixed
unfolding fix_sectors
fix_array usa_offset usa_count record_size sector_size bytes =
    if usa_count == 0
    then refused
    else if ltb record_size ((usa_count - 1) * sector_size % 2 ^ 32)
    then refused
    else if ltb record_size (usa_offset + 2 * usa_count)
    then refused
    else fix_signed usa_offset (usa_count - 1) sector_size bytes (copy usa_offset 2 bytes)

abbrev pub fix_found : ℕ → ℕ → Bytes → Option Bytes → Option Bytes → Fixed
fix_found record_size sector_size bytes (some offset) (some count) =
    fix_array (from_le offset) (from_le count) record_size sector_size bytes
fix_found record_size sector_size bytes _ _ = outside

unfoldable pub apply_update_sequence : ℕ → ℕ → Bytes → Fixed
unfolding fix_array copy
apply_update_sequence record_size sector_size bytes =
    if ltb record_size 44
    then refused
    else fix_found record_size sector_size bytes (copy 4 2 bytes) (copy 6 2 bytes)
