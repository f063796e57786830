-- ===== src/Mft/Tests.antt =====
-- A table with one file, and records that are torn or lead in a circle.
use mathlib.Core.Path.{subst}
use vaulkeeper.Mft.Boot.{boot_info, read_boot_sector}
use vaulkeeper.Mft.Fixup.{apply_update_sequence, copy, fix_array, fix_sectors, fixed, overwrite}
use vaulkeeper.Mft.Fixup.Torn.{Signed, apply_update_sequence-Signed}
use vaulkeeper.Mft.Record.{
  attribute_length, attribute_type, no_fields, read_attribute, read_record, unfinished,
  walk_attributes,
}
use vaulkeeper.Mft.Record.Progress.{
  ComesToAnEnd, IsPassed, IsVisited, LengthsFit, behind, here, walk_attributes-ComesToAnEnd,
  walk_attributes-unfinished,
}
use vaulkeeper.Mft.Stream.{
  Streamed, VolumeCalls, batch_records, stream, stream_batches, stream_records, streamed,
  streamed_endless, streamed_outside,
}
use vaulkeeper.Mft.Stream.Delivery.{DeliversOrFails, stream-DeliversOrFails}
use vaulkeeper.Prelude.{
  Bool, List, [], arith, both_true, drop, inl, inr, length, ltb, ltb→lt, map, none, refl, replicate,
  some, sym, take, true, ℕ, ◌%◌, ◌&&◌, ◌++◌, ◌+◌, ◌-◌, ◌<◌, ◌^◌, ◌∷◌, ◌≡◌, ◌≢◌, ◌⊎◌,
}
use vaulkeeper.Prelude.Bytes.{AllBytes, Bytes, bytes_eq, codes, from_le, slice}
use vaulkeeper.Util.Error.{ok}
use vaulkeeper.Util.Interner.{fresh_interner, intern}

-- Bytes at a place of a buffer.
abbrev put : ℕ → Bytes → Bytes → Bytes
put at bs buffer = take at buffer ++ (bs ++ drop (at + length bs) buffer)

abbrev all_small : Bytes → Bool
all_small [] = true
all_small (b ∷ bs) = ltb b 256 && all_small bs

small-AllBytes : (bs : Bytes) → all_small bs ≡ true → AllBytes bs
small-AllBytes [] h = tt
small-AllBytes (b ∷ bs) h =
    (let t = both_true (ltb b 256) (all_small bs) h in (ltb→lt b 256 t.0, small-AllBytes bs t.1))

-- Sectors of 256 bytes and records of 2 ^ 8.
abbrev sector : Bytes
sector = put 0x40 (248 ∷ []) (put 0x0B (0 ∷ 1 ∷ 8 ∷ []) (replicate 512 0))

-- A file named by one character, in use, whose sector ends with the signature 7, 7.
abbrev file_record : Bytes
file_record = put 0 (codes "FILE") (
    put 4 (48 ∷ 0 ∷ 2 ∷ 0 ∷ []) (
      put 20 (56 ∷ 0 ∷ 1 ∷ 0 ∷ []) (
        put 48 (7 ∷ 7 ∷ []) (
          put 56 (0x30 ∷ 0 ∷ 0 ∷ 0 ∷ 96 ∷ []) (
            put 76 (24 ∷ []) (
              put 128 (5 ∷ []) (
                put 144 (1 ∷ 1 ∷ 65 ∷ []) (
                  put 152 (255 ∷ 255 ∷ 255 ∷ 255 ∷ [])
                    (put 254 (7 ∷ 7 ∷ []) (replicate 256 0))))))))))

abbrev utf8 : Bytes → Bytes
utf8 wide = take 1 wide

abbrev calls : VolumeCalls
calls = record {
  boot_sector = ok sector;
  open_volume = none;
  set_file_pointer = λ at. none;
  read_file = λ n. file_record ∷ [];
}

booted : read_boot_sector sector ≡ some (boot_info sector 256)
unfolding read_boot_sector
booted = refl

stream-DeliversOrFails_example : DeliversOrFails (stream utf8 (codes "C:/") calls fresh_interner)
stream-DeliversOrFails_example =
    stream-DeliversOrFails utf8 (codes "C:/") calls fresh_interner sector (boot_info sector 256)
      refl booted (omega arith) (omega arith) (omega arith) (omega arith)
      (λ n. (small-AllBytes file_record refl, tt))

abbrev sizes : Streamed → List ℕ
sizes (streamed s) = map (λ e. e.logical_size) s.sunk
sizes streamed_outside = []
sizes streamed_endless = []

-- The file has 5 bytes.
one_file :
    sizes (
      stream_batches utf8
        (codes "C:/")
        256
        256
        (file_record ∷ [])
        record { interner = fresh_interner; sunk = []; emitted = 0 })
    ≡ 5 ∷ []
unfolding stream_batches stream_records batch_records read_record apply_update_sequence fix_array
    fix_sectors copy overwrite bytes_eq walk_attributes read_attribute intern
one_file = refl

abbrev fixed_record : Bytes
fixed_record = put 254 (0 ∷ 0 ∷ []) file_record

accepted : apply_update_sequence 256 256 file_record ≡ fixed fixed_record
unfolding apply_update_sequence fix_array fix_sectors copy overwrite bytes_eq
accepted = refl

apply_update_sequence-Signed_example :
    Signed
      (from_le (slice 6 2 file_record) - 1)
      0
      256
      (slice (from_le (slice 4 2 file_record)) 2 file_record)
      file_record
apply_update_sequence-Signed_example =
    apply_update_sequence-Signed 256 file_record fixed_record 256 (small-AllBytes file_record refl)
      refl (omega arith) (omega arith) (omega arith) accepted

-- Behind the one attribute of the record is the terminator.
visited_offsets : (at : ℕ) → IsVisited 256 fixed_record 56 at → (at ≡ 56) ⊎ (at ≡ 152)
visited_offsets at here = inl refl
visited_offsets at (behind {at = before} {next = _} v room kind some_length jump) =
    elim (visited_offsets before v) [
      | inl e ↦
          inr (
            sym
              (subst (λ n. (n + attribute_length (slice n 64 fixed_record)) % 2 ^ 32 ≡ at) e jump))
      | inr e ↦
          absurd (subst (λ n. attribute_type (slice n 64 fixed_record) ≢ 0xFFFFFFFF) e kind refl)
    ]

fixed_record-LengthsFit : LengthsFit 256 fixed_record 56
fixed_record-LengthsFit at v room kind = elim (visited_offsets at v) [
  | inl e ↦
      subst (λ n. n + attribute_length (slice n 64 fixed_record) < 2 ^ 32) (sym e) (omega arith)
  | inr e ↦ absurd (subst (λ n. attribute_type (slice n 64 fixed_record) ≢ 0xFFFFFFFF) e kind refl)
]

walk_attributes-ComesToAnEnd_example :
    ComesToAnEnd (walk_attributes utf8 256 257 fixed_record 56 no_fields)
walk_attributes-ComesToAnEnd_example =
    walk_attributes-ComesToAnEnd utf8 256 fixed_record 56 no_fields refl fixed_record-LengthsFit
      (omega arith)

-- A header of length 8 before one of length 2 ^ 32 - 8.
abbrev circle : Bytes
circle =
    put 0 (0x20 ∷ 0 ∷ 0 ∷ 0 ∷ 8 ∷ 0 ∷ 0 ∷ 0 ∷ 0x20 ∷ 0 ∷ 0 ∷ 0 ∷ 248 ∷ 255 ∷ 255 ∷ 255 ∷ [])
      (replicate 80 0)

circle-IsPassed : IsPassed (slice 0 64 circle) × IsPassed (slice 8 64 circle)
circle-IsPassed = (
  record {
    terminator = omega arith;
    standard_information = omega arith;
    file_name = omega arith;
    contents = omega arith;
    length = omega arith;
  },
  record {
    terminator = omega arith;
    standard_information = omega arith;
    file_name = omega arith;
    contents = omega arith;
    length = omega arith;
  },
)

walk_attributes-unfinished_example : walk_attributes utf8 80 1000000 circle 0 no_fields ≡ unfinished
walk_attributes-unfinished_example =
    walk_attributes-unfinished utf8 80 circle 0 8 no_fields 1000000 refl (omega arith) (omega arith)
      circle-IsPassed.0 circle-IsPassed.1 refl refl
