-- ===== src/Mft/Record.antt =====
-- What `NtfsMftReader::stream` of src/platform/windows/mft/ntfs_mft.cpp does with one record. The
-- structures are copied as they lie in memory, without gaps: `AttributeHeader` has 64 bytes,
-- `StandardInformationAttr` 36, `FileNameAttr` 68 with its name at 66. `utf8` is
-- `WideCharToMultiByte`, which gives nothing where it fails.
pub mod Attributes
pub mod Inside
pub mod Progress
use vaulkeeper.Mft.Fixup.{Fixed, apply_update_sequence, copy, fixed, outside, refused}
use vaulkeeper.Prelude.{
  Bool, Option, [], false, if◌then◌else◌, leb, ltb, none, not, some, suc, true, zero, ℕ, ◌%◌, ◌&&◌,
  ◌*◌, ◌+◌, ◌/◌, ◌==◌, ◌^◌, ◌∷◌,
}
use vaulkeeper.Prelude.Bytes.{Bytes, bytes_eq, codes, from_le, slice}

abbrev pub attribute_header_size : ℕ
attribute_header_size = 64

-- A bit of a word: `n & (1 << k)`.
abbrev pub bit : ℕ → ℕ → Bool
bit k n = n / 2 ^ k % 2 == 1

-- What the walk over the attributes collects.
pub record Fields : Type 0 where
  pub parent_ref : ℕ
  pub leaf_name : Bytes
  pub real_size : ℕ
  pub allocated_size : ℕ
  pub created_time : ℕ
  pub modified_time : ℕ
  pub accessed_time : ℕ
  pub si_attributes : ℕ
  pub got_file_name : Bool
  pub got_standard : Bool

abbrev pub no_fields : Fields
no_fields = record {
  parent_ref = 0;
  leaf_name = [];
  real_size = 0;
  allocated_size = 0;
  created_time = 0;
  modified_time = 0;
  accessed_time = 0;
  si_attributes = 0;
  got_file_name = false;
  got_standard = false;
}

-- Fields of an `AttributeHeader`.
abbrev pub attribute_type : Bytes → ℕ
attribute_type header = from_le (slice 0 4 header)

abbrev pub attribute_length : Bytes → ℕ
attribute_length header = from_le (slice 4 4 header)

abbrev pub non_resident : Bytes → ℕ
non_resident header = from_le (slice 8 1 header)

abbrev pub attribute_name_length : Bytes → ℕ
attribute_name_length header = from_le (slice 9 1 header)

abbrev pub value_offset : Bytes → ℕ
value_offset header = from_le (slice 20 2 header)

abbrev pub data_offset : ℕ → Bytes → ℕ
data_offset offset header = (offset + value_offset header) % 2 ^ 32

abbrev pub standard_fields : Fields → Option Bytes → Option Fields
standard_fields p none = none
standard_fields p (some si) = some record p {
  created_time = from_le (slice 0 8 si);
  modified_time = from_le (slice 8 8 si);
  accessed_time = from_le (slice 24 8 si);
  si_attributes = from_le (slice 32 4 si);
  got_standard = true;
}

-- Other code than `FileNameAttr` of namespace 2, the short names.
abbrev pub named_fields : Fields → Bytes → Bytes → Fields
named_fields p name narrow = if from_le (slice 65 1 name) == 2 then p else record p {
  leaf_name = narrow;
  parent_ref = from_le (slice 0 8 name) % 2 ^ 48;
  real_size = from_le (slice 48 8 name);
  allocated_size = from_le (slice 40 8 name);
  got_file_name = true;
}

abbrev pub converted_fields : Fields → Bytes → Bytes → Fields
converted_fields p name [] = p
converted_fields p name (c ∷ narrow) = named_fields p name (c ∷ narrow)

abbrev pub data_fields : Bytes → Fields → Fields
data_fields header p =
    if p.real_size == 0
    then record p {
      real_size = from_le (slice 48 8 header);
      allocated_size = from_le (slice 40 8 header);
    }
    else p

-- How the walk over the attributes ends: with what it found, with a copy from outside of the record, or
-- not in the rounds that it was given.
pub data Walked : Type 0 where
  walked : Fields → Walked
  strayed : Walked
  unfinished : Walked

abbrev pub go_on : (Fields → Walked) → Option Fields → Walked
go_on later none = strayed
go_on later (some p) = later p

module _ (utf8 : Bytes → Bytes) (record_size : ℕ) where
  abbrev pub wide_fields : Fields → Bytes → Option Bytes → Option Fields
  wide_fields p name none = none
  wide_fields p name (some wide) = some (converted_fields p name (utf8 wide))

  abbrev pub file_name_fields : Fields → ℕ → Bytes → Option Bytes → Option Fields
  file_name_fields p at bytes none = none
  file_name_fields p at bytes (some name) =
      let name_length = from_le (slice 64 1 name) in
      if leb ((at + 66 + name_length * 2) % 2 ^ 32) record_size
      then wide_fields p name (copy (at + 66) (name_length * 2) bytes)
      else some p

  -- What one attribute adds.
  unfoldable pub read_attribute : Bytes → ℕ → Bytes → Fields → Option Fields
  unfolding copy
  read_attribute bytes offset header p =
      let at = data_offset offset header in
      if attribute_type header == 0x10 && non_resident header == 0
      then (if leb (at + 36) record_size then standard_fields p (copy at 36 bytes) else some p)
      else if attribute_type header == 0x30 && non_resident header == 0
      then (if leb (at + 68) record_size
          then file_name_fields p at bytes (copy at 68 bytes)
          else some p)
      else if attribute_type header == 0x80
          && not (non_resident header == 0)
          && attribute_name_length header == 0
      then some (data_fields header p)
      else some p

  -- One round, whose header has been copied. The rest of the loop takes the next offset.
  abbrev pub attribute_round : (ℕ → Fields → Walked) → Bytes → ℕ → Fields → Option Bytes → Walked
  attribute_round later bytes offset p none = strayed
  attribute_round later bytes offset p (some header) =
      if attribute_type header == 0xFFFFFFFF
      then walked p
      else if attribute_length header == 0
      then walked p
      else if ltb record_size ((offset + attribute_length header) % 2 ^ 32)
      then walked p
      else go_on (later ((offset + attribute_length header) % 2 ^ 32))
          (read_attribute bytes offset header p)

  -- The loop, with at most `fuel` rounds.
  unfoldable pub walk_attributes : ℕ → Bytes → ℕ → Fields → Walked
  unfolding read_attribute copy
  walk_attributes zero bytes offset p = unfinished
  walk_attributes (suc fuel) bytes offset p =
      if leb (offset + attribute_header_size) record_size
      then attribute_round (λ next q. walk_attributes fuel bytes next q) bytes offset p
          (copy offset attribute_header_size bytes)
      else walked p

-- What comes of a record: it is passed over, its file is emitted with the flags of the record, or the
-- walk ends as above.
pub data Read : Type 0 where
  skipped : Read
  found : ℕ → Fields → Read
  astray : Read
  endless : Read

abbrev pub found_name : ℕ → Walked → Read
found_name flags (walked p) = if p.got_file_name then found flags p else skipped
found_name flags strayed = astray
found_name flags unfinished = endless

module _ (utf8 : Bytes → Bytes) (record_size sector_size : ℕ) where
  abbrev pub walk_from : Bytes → ℕ → Option Bytes → Read
  walk_from bytes flags none = astray
  walk_from bytes flags (some first) =
      if leb record_size (from_le first)
      then skipped
      else found_name flags
          (walk_attributes utf8 record_size (suc record_size) bytes (from_le first) no_fields)

  abbrev pub read_in_use : Bytes → Option Bytes → Read
  read_in_use bytes none = astray
  read_in_use bytes (some flags) =
      if bit 0 (from_le flags) then walk_from bytes (from_le flags) (copy 20 2 bytes) else skipped

  abbrev pub read_fixed : Fixed → Read
  read_fixed refused = skipped
  read_fixed outside = astray
  read_fixed (fixed bytes) = read_in_use bytes (copy 22 2 bytes)

  abbrev pub read_signed : Bytes → Option Bytes → Read
  read_signed bytes none = astray
  read_signed bytes (some signature) =
      if bytes_eq signature (codes "FILE")
      then read_fixed (apply_update_sequence record_size sector_size bytes)
      else skipped

  unfoldable pub read_record : Bytes → Read
  unfolding copy bytes_eq apply_update_sequence walk_attributes
  read_record bytes = read_signed bytes (copy 0 4 bytes)
