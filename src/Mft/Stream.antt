-- ===== src/Mft/Stream.antt =====
-- `NtfsMftReader::stream` of src/platform/windows/mft/ntfs_mft.cpp over the calls of Windows.
pub mod Delivery
use vaulkeeper.Fs.Entry.{FileAttributes, FileEntry, directory, empty_entry, no_attributes, regular}
use vaulkeeper.Mft.Boot.{MftBootInfo, read_boot_sector}
use vaulkeeper.Mft.Record.{Fields, Read, astray, bit, endless, found, read_record, skipped}
use vaulkeeper.Prelude.{
  List, Option, [], drop, if◌then◌else◌, length, ltb, none, some, suc, take, zero, ℕ, ◌%◌, ◌*◌,
  ◌++◌, ◌+◌, ◌-◌, ◌/◌, ◌==◌, ◌^◌, ◌∷◌,
}
use vaulkeeper.Prelude.Bytes.{Bytes}
use vaulkeeper.Prelude.Int.{pos, signed_64, ℤ}
use vaulkeeper.Util.Error.{Error, Result, err, ok}
use vaulkeeper.Util.Interner.{StringInterner, intern}
use vaulkeeper.Util.Time.{from_unix_nanos}

-- The calls, with what they give: the boot sector, the volume opened again, the position set, and the
-- reads in turn, of at most so many bytes each, as long as they succeed and bring any.
pub record VolumeCalls : Type 0 where
  pub boot_sector : Result Bytes
  pub open_volume : Option Error
  pub set_file_pointer : ℕ → Option Error
  pub read_file : ℕ → List Bytes

abbrev pub unix_epoch_diff : ℕ
unix_epoch_diff = 116444736000000000

abbrev pub filetime_to_system_clock : ℕ → ℤ
filetime_to_system_clock filetime =
    if filetime == 0
    then pos 0
    else if ltb filetime unix_epoch_diff
    then pos 0
    else from_unix_nanos (signed_64 ((filetime - unix_epoch_diff) * 100 % 2 ^ 64))

abbrev pub attributes_of : ℕ → FileAttributes
attributes_of si = record no_attributes {
  read_only = bit 0 si;
  hidden = bit 1 si;
  system = bit 2 si;
  archive = bit 5 si;
  compressed = bit 11 si;
  encrypted = bit 14 si;
  sparse = bit 9 si;
}

abbrev pub with_standard : Fields → FileEntry → FileEntry
with_standard p e =
    if p.got_standard
    then record e {
      created_at = filetime_to_system_clock p.created_time;
      modified_at = filetime_to_system_clock p.modified_time;
      accessed_at = filetime_to_system_clock p.accessed_time;
      attrs = attributes_of p.si_attributes;
    }
    else e

abbrev pub entry_of : ℕ → Fields → ℕ → ℕ → FileEntry
entry_of flags p name parent = with_standard p record empty_entry {
  name = name;
  parent_path = parent;
  logical_size = p.real_size;
  size_on_disk = if p.allocated_size == 0 then p.real_size else p.allocated_size;
  parent_record_number = p.parent_ref;
  kind = if bit 1 flags then directory else regular;
}

-- What the loops carry; the sink takes the entries in order.
pub record Streaming : Type 0 where
  pub interner : StringInterner
  pub sunk : List FileEntry
  pub emitted : ℕ

-- How the stream ends: with its result, with a copy from outside of a record, or in a walk over
-- attributes that takes more rounds than the record has bytes.
pub data Streamed : Type 0 where
  streamed : Streaming → Streamed
  streamed_outside : Streamed
  streamed_endless : Streamed

abbrev pub emit : Bytes → ℕ → Fields → Streaming → Streaming
emit root flags p s =
    let (name, st) = intern p.leaf_name s.interner in
    let (parent, st') = intern root st in
    record {
      interner = st';
      sunk = s.sunk ++ entry_of flags p name parent ∷ [];
      emitted = (s.emitted + 1) % 2 ^ 64;
    }

-- The records of a batch: the first `count` of them.
unfoldable pub batch_records : ℕ → ℕ → Bytes → List Bytes
batch_records record_size zero bytes = []
batch_records record_size (suc count) bytes =
    take record_size bytes ∷ batch_records record_size count (drop record_size bytes)

abbrev pub records_per_batch : ℕ
records_per_batch = 64

module _ (utf8 : Bytes → Bytes) (root : Bytes) (record_size sector_size : ℕ) where
  abbrev pub after_record : (Streaming → Streamed) → Read → Streaming → Streamed
  after_record later skipped s = later s
  after_record later (found flags p) s = later (emit root flags p s)
  after_record later astray s = streamed_outside
  after_record later endless s = streamed_endless

  unfoldable pub stream_records : List Bytes → (Streaming → Streamed) → Streaming → Streamed
  unfolding intern read_record
  stream_records [] later s = later s
  stream_records (r ∷ rs) later s =
      after_record (stream_records rs later) (read_record utf8 record_size sector_size r) s

  -- The loop over the reads, which ends behind a batch that is not full.
  unfoldable pub stream_batches : List Bytes → Streaming → Streamed
  unfolding stream_records batch_records
  stream_batches [] s = streamed s
  stream_batches (bytes ∷ rest) s =
      let count = length bytes / record_size in
      stream_records (batch_records record_size count bytes)
        (λ s'. if ltb count records_per_batch then streamed s' else stream_batches rest s') s

-- The table begins at the start cluster; a record of size 0 is taken as one of 1024 bytes.
abbrev pub start_position : MftBootInfo → ℕ
start_position boot =
    boot.mft_start_cluster * boot.sectors_per_cluster * boot.bytes_per_sector % 2 ^ 64

abbrev pub stream_size : MftBootInfo → ℕ
stream_size boot = if boot.record_size_bytes == 0 then 1024 else boot.record_size_bytes

module _ (utf8 : Bytes → Bytes) (root : Bytes) (calls : VolumeCalls) (st : StringInterner) where
  abbrev pub stream_at : MftBootInfo → Option Error → Result Streamed
  stream_at boot (some e) = err e
  stream_at boot none = ok (
      stream_batches utf8 root (stream_size boot) (boot.bytes_per_sector % 2 ^ 32)
        (calls.read_file (stream_size boot * records_per_batch % 2 ^ 32))
        record { interner = st; sunk = []; emitted = 0 })

  abbrev pub stream_opened : MftBootInfo → Option Error → Result Streamed
  stream_opened boot (some e) = err e
  stream_opened boot none = stream_at boot (calls.set_file_pointer (start_position boot))

  -- None where the size of a record has no defined value.
  abbrev pub stream_booted : Option MftBootInfo → Option (Result Streamed)
  stream_booted none = none
  stream_booted (some boot) = some (stream_opened boot calls.open_volume)

  abbrev pub stream_from : Result Bytes → Option (Result Streamed)
  stream_from (err e) = some (err e)
  stream_from (ok sector) = stream_booted (read_boot_sector sector)

  unfoldable pub stream : Option (Result Streamed)
  unfolding stream_batches read_boot_sector from_unix_nanos
  stream = stream_from calls.boot_sector
