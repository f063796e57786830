-- ===== src/Mft/Fixup/Inside.antt =====
-- Where the fixups of a record stay inside it.
use vaulkeeper.Mft.Fixup.{
  Fixed, apply_update_sequence, copy, fix_array, fix_sectors, fix_tail, fixed, outside, overwrite,
  refused, sector_end,
}
use vaulkeeper.Prelude.{
  Bool, arith, drop, false, if-cases, if◌then◌else◌, length, length-append, length-drop,
  length-take, le→leb, ltb, ltb-false, refl, some, suc, take, true, zero, ℕ, ◌%◌, ◌*◌, ◌++◌, ◌+◌,
  ◌-◌, ◌<◌, ◌==◌, ◌^◌, ◌∙◌, ◌≡◌, ◌≤◌,
}
use vaulkeeper.Prelude.Bytes.{
  AllBytes, AllBytes-append, AllBytes-drop, AllBytes-slice, AllBytes-take, Bytes, bytes_eq, from_le,
  from_le-slice_lt, slice,
}

-- A copy inside the buffer gives what is there.
pub copy-slice :
    (at n : ℕ) (bytes : Bytes) → at + n ≤ length bytes → copy at n bytes ≡ some (slice at n bytes)
unfolding copy
copy-slice at n bytes h = rw (le→leb (at + n) (length bytes) h) refl

pub length-slice :
    (at n : ℕ) (bytes : Bytes) → at + n ≤ length bytes → length (slice at n bytes) ≡ n
length-slice at n bytes h = omega (arith, length-take n (drop at bytes), length-drop at bytes)

pub length-overwrite :
    (at : ℕ) (two bytes : Bytes)
    → at + 2 ≤ length bytes
    → length two ≡ 2
    → length (overwrite at two bytes) ≡ length bytes
unfolding overwrite
length-overwrite at two bytes h k = omega (
  arith,
  length-append (take at bytes) (two ++ drop (suc (suc at)) bytes),
  length-append two (drop (suc (suc at)) bytes),
  length-take at bytes,
  length-drop (suc (suc at)) bytes,
)

AllBytes-overwrite :
    (at : ℕ) (two bytes : Bytes) → AllBytes two → AllBytes bytes → AllBytes (overwrite at two bytes)
unfolding overwrite
AllBytes-overwrite at two bytes h k =
    AllBytes-append (take at bytes) (two ++ drop (suc (suc at)) bytes) (AllBytes-take at bytes k)
      (AllBytes-append two (drop (suc (suc at)) bytes) h (AllBytes-drop (suc (suc at)) bytes k))

-- The outcome is no access outside of the record, which keeps its length.
abbrev pub StaysInside : ℕ → Fixed → Type 0
StaysInside size refused = Unit
StaysInside size (fixed bytes) = (length bytes ≡ size) × AllBytes bytes
StaysInside size outside = ⊥

pub sector_end-sub : (e : ℕ) → 2 ≤ e → e < 2 ^ 32 → (e + (2 ^ 32 - 2)) % 2 ^ 32 ≡ e - 2
sector_end-sub e h k = omega arith

fix_tail-StaysInside :
    (later : Bytes → Fixed) (at source : ℕ) (signature bytes : Bytes) (size : ℕ)
    → AllBytes bytes
    → length bytes ≡ size
    → at + 2 ≤ size
    → source + 2 ≤ size
    → ((two : Bytes)
        → AllBytes two
        → length two ≡ 2
        → StaysInside size (later (overwrite at two bytes)))
    → StaysInside size (fix_tail later at signature bytes (copy at 2 bytes) (copy source 2 bytes))
fix_tail-StaysInside later at source signature bytes size all e h k go =
    rw (copy-slice at 2 bytes (omega arith)) (
      rw (copy-slice source 2 bytes (omega arith))
        (compared (bytes_eq (slice at 2 bytes) signature)))
  where
    compared :
        (b : Bool)
        → StaysInside size
            (if b then later (overwrite at (slice source 2 bytes) bytes) else refused)
    compared true =
        go (slice source 2 bytes) (AllBytes-slice source 2 bytes all)
          (length-slice source 2 bytes (omega arith))
    compared false = tt

fix_sectors-StaysInside :
    (left i usa_offset sector_size : ℕ) (signature bytes : Bytes) (size : ℕ)
    → AllBytes bytes
    → length bytes ≡ size
    → size < 2 ^ 32
    → 2 ≤ sector_size
    → (i + left) * sector_size ≤ size
    → usa_offset + 2 * (i + left + 1) ≤ size
    → StaysInside size (fix_sectors left i usa_offset sector_size signature bytes)
unfolding fix_sectors
fix_sectors-StaysInside zero i usa_offset sector_size signature bytes size all e small two covered
      array =
    (e, all)
fix_sectors-StaysInside (suc left) i usa_offset sector_size signature bytes size all e small two
      covered array =
    fix_tail-StaysInside (fix_sectors left (suc i) usa_offset sector_size signature)
      (sector_end sector_size i) (usa_offset + 2 * (i + 1)) signature bytes size all e
      (omega (arith, sector_end-sub ((i + 1) * sector_size) (omega arith) (omega arith)))
      (omega arith)
      (λ w a k.
        fix_sectors-StaysInside left (suc i) usa_offset sector_size signature
          (overwrite (sector_end sector_size i) w bytes) size
          (AllBytes-overwrite (sector_end sector_size i) w bytes a all)
          (length-overwrite (sector_end sector_size i) w bytes
              (omega (arith, sector_end-sub ((i + 1) * sector_size) (omega arith) (omega arith))) k
            ∙ e)
          small two (omega arith) (omega arith))

pub nonzero : (n : ℕ) → (n == 0) ≡ false → 1 ≤ n
nonzero n h = ground arith

fix_array-StaysInside :
    (usa_offset usa_count sector_size : ℕ) (bytes : Bytes) (size : ℕ)
    → AllBytes bytes
    → length bytes ≡ size
    → size < 2 ^ 32
    → 2 ≤ sector_size
    → (usa_count - 1) * sector_size < 2 ^ 32
    → StaysInside size (fix_array usa_offset usa_count size sector_size bytes)
unfolding fix_array
fix_array-StaysInside usa_offset usa_count sector_size bytes size all e small two fits =
    if-cases (StaysInside size) (usa_count == 0) (λ h. tt)
      λ some_sectors.
        if-cases (StaysInside size) (ltb size ((usa_count - 1) * sector_size % 2 ^ 32)) (λ h. tt)
          λ covered.
            if-cases (StaysInside size) (ltb size (usa_offset + 2 * usa_count)) (λ h. tt)
              λ array.
                rw
                  (copy-slice usa_offset 2 bytes
                    (omega (arith, nonzero usa_count some_sectors, ltb-false _ _ array)))
                  (fix_sectors-StaysInside (usa_count - 1) 0 usa_offset sector_size
                    (slice usa_offset 2 bytes) bytes size all e small two
                    (omega (arith, fits, ltb-false _ _ covered))
                    (omega (arith, nonzero usa_count some_sectors, ltb-false _ _ array)))

product_le : (a b k l : ℕ) → a * b ≤ (a + k) * (b + l)
product_le a b k l = omega arith

pub words_product : (a b : ℕ) → a < 2 ^ 16 → b < 2 ^ 16 → (a - 1) * b < 2 ^ 32
words_product a b h k = omega (arith, product_le (a - 1) b (65535 - (a - 1)) (65535 - b), same)
  where
    below : (n : ℕ) → n ≤ 65535 → n + (65535 - n) ≡ 65535
    below n h = omega arith

    same : (a - 1 + (65535 - (a - 1))) * (b + (65535 - b)) ≡ 65535 * 65535
    same = rw (below (a - 1) (omega arith)) (rw (below b (omega arith)) refl)

pub apply_update_sequence-StaysInside :
    (sector_size : ℕ) (bytes : Bytes) (size : ℕ)
    → AllBytes bytes
    → length bytes ≡ size
    → size < 2 ^ 32
    → 2 ≤ sector_size
    → sector_size < 2 ^ 16
    → StaysInside size (apply_update_sequence size sector_size bytes)
unfolding apply_update_sequence
apply_update_sequence-StaysInside sector_size bytes size all e small two narrow =
    if-cases (StaysInside size) (ltb size 44) (λ h. tt)
      λ long. rw (copy-slice 4 2 bytes (omega (arith, ltb-false _ _ long))) (
        rw (copy-slice 6 2 bytes (omega (arith, ltb-false _ _ long))) (
          fix_array-StaysInside (from_le (slice 4 2 bytes)) (from_le (slice 6 2 bytes)) sector_size
            bytes size all e small two
            (words_product (from_le (slice 6 2 bytes)) sector_size (from_le-slice_lt 2 6 bytes all)
              narrow)))
