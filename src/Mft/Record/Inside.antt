-- ===== src/Mft/Record/Inside.antt =====
-- Where the reading of a record stays inside of it.
use vaulkeeper.Mft.Fixup.{Fixed, apply_update_sequence, fixed, outside, refused}
use vaulkeeper.Mft.Fixup.Inside.{StaysInside, apply_update_sequence-StaysInside, copy-slice}
use vaulkeeper.Mft.Record.{
  Read, Walked, astray, bit, endless, found, found_name, no_fields, read_fixed, read_record,
  skipped, strayed, unfinished, walk_from, walked,
}
use vaulkeeper.Mft.Record.Attributes.{KeepsIn, walk_attributes-KeepsIn}
use vaulkeeper.Prelude.{arith, if-cases, leb, length, some, suc, ℕ, ◌+◌, ◌<◌, ◌^◌, ◌≡◌, ◌≤◌}
use vaulkeeper.Prelude.Bytes.{AllBytes, Bytes, bytes_eq, codes, from_le, slice}

abbrev pub StaysIn : Read → Type 0
StaysIn skipped = Unit
StaysIn (found flags p) = Unit
StaysIn astray = ⊥
StaysIn endless = Unit

found_name-StaysIn : (flags : ℕ) (w : Walked) → KeepsIn w → StaysIn (found_name flags w)
found_name-StaysIn flags (walked p) h = if-cases StaysIn p.got_file_name (λ k. tt) (λ k. tt)
found_name-StaysIn flags strayed h = h
found_name-StaysIn flags unfinished h = tt

module _ (utf8 : Bytes → Bytes) (record_size sector_size : ℕ) where
  walk_from-StaysIn :
      (bytes : Bytes) (flags : ℕ) (first : Bytes)
      → AllBytes bytes
      → length bytes ≡ record_size
      → record_size + 512 ≤ 2 ^ 32
      → StaysIn (walk_from utf8 record_size sector_size bytes flags (some first))
  walk_from-StaysIn bytes flags first all e room =
      if-cases StaysIn (leb record_size (from_le first)) (λ h. tt)
        (λ h. found_name-StaysIn flags _ (
          walk_attributes-KeepsIn utf8 record_size (suc record_size) bytes (from_le first) no_fields
            all e room))

  read_fixed-StaysIn :
      (out : Fixed)
      → StaysInside record_size out
      → 44 ≤ record_size
      → record_size + 512 ≤ 2 ^ 32
      → StaysIn (read_fixed utf8 record_size sector_size out)
  read_fixed-StaysIn refused h long room = tt
  read_fixed-StaysIn outside h long room = h
  read_fixed-StaysIn (fixed bytes) h long room = rw (copy-slice 22 2 bytes (omega (arith, h.0))) (
      if-cases StaysIn (bit 0 (from_le (slice 22 2 bytes)))
        (λ k.
          rw (copy-slice 20 2 bytes (omega (arith, h.0)))
            (walk_from-StaysIn bytes (from_le (slice 22 2 bytes)) (slice 20 2 bytes) h.1 h.0 room))
        (λ k. tt))

  -- A record of 44 bytes and more, up to 2 ^ 32 - 512, is read with no copy from outside of it, if
  -- sectors have 2 to 2 ^ 16 - 1 bytes.
  pub read_record-StaysIn :
      (bytes : Bytes)
      → AllBytes bytes
      → length bytes ≡ record_size
      → 44 ≤ record_size
      → record_size + 512 ≤ 2 ^ 32
      → 2 ≤ sector_size
      → sector_size < 2 ^ 16
      → StaysIn (read_record utf8 record_size sector_size bytes)
  unfolding read_record
  read_record-StaysIn bytes all e long room two narrow =
      rw (copy-slice 0 4 bytes (omega (arith, e))) (
        if-cases StaysIn (bytes_eq (slice 0 4 bytes) (codes "FILE"))
          (λ h.
            read_fixed-StaysIn (apply_update_sequence record_size sector_size bytes)
              (apply_update_sequence-StaysInside sector_size bytes record_size all e (omega arith)
                two narrow)
              long room)
          (λ h. tt))
