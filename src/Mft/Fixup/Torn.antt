-- ===== src/Mft/Fixup/Torn.antt =====
-- A record that was not written as a whole is not accepted.
use mathlib.Core.Path.{subst}
use vaulkeeper.Mft.Fixup.{
  Fixed, apply_update_sequence, copy, fix_array, fix_found, fix_sectors, fix_signed, fix_tail,
  fixed, outside, overwrite, refused, sector_end,
}
use vaulkeeper.Mft.Fixup.Inside.{
  copy-slice, length-overwrite, length-slice, nonzero, sector_end-sub, words_product,
}
use vaulkeeper.Prelude.{
  ==_iff, Bool, Bool-cases, [], ap, arith, drop, false, if◌then◌else◌, inl, inr, length, ltb,
  ltb-false, refl, some, suc, sym, take, true, zero, ℕ, ◌%◌, ◌*◌, ◌+◌, ◌-◌, ◌<◌, ◌==◌, ◌^◌, ◌∙◌,
  ◌∷◌, ◌≡◌, ◌≤◌,
}
use vaulkeeper.Prelude.Bytes.{
  AllBytes, Bytes, bytes_eq, bytes_eq_iff, from_le, from_le-slice_lt, slice,
}

-- What lies behind a write is what it was.
drop-overwrite :
    (at far : ℕ) (two bytes : Bytes)
    → at + 2 ≤ length bytes
    → length two ≡ 2
    → at + 2 ≤ far
    → drop far (overwrite at two bytes) ≡ drop far bytes
unfolding overwrite
drop-overwrite zero (suc (suc far)) (a ∷ b ∷ []) (c ∷ d ∷ bytes) h k l = refl
drop-overwrite zero zero two bytes h k l = absurd (omega arith)
drop-overwrite zero (suc zero) two bytes h k l = absurd (omega arith)
drop-overwrite zero (suc (suc far)) two [] h k l = absurd (omega arith)
drop-overwrite zero (suc (suc far)) two (c ∷ []) h k l = absurd (omega arith)
drop-overwrite zero (suc (suc far)) [] (c ∷ d ∷ bytes) h k l = absurd (omega arith)
drop-overwrite zero (suc (suc far)) (a ∷ []) (c ∷ d ∷ bytes) h k l = absurd (omega arith)
drop-overwrite zero (suc (suc far)) (a ∷ b ∷ e ∷ two) (c ∷ d ∷ bytes) h k l = absurd (omega arith)
drop-overwrite (suc at) far two [] h k l = absurd (omega arith)
drop-overwrite (suc at) zero two (c ∷ bytes) h k l = absurd (omega arith)
drop-overwrite (suc at) (suc far) two (c ∷ bytes) h k l =
    drop-overwrite at far two bytes (omega arith) k (omega arith)

abbrev IsFixed : Fixed → Type 0
IsFixed refused = ⊥
IsFixed (fixed bytes) = Unit
IsFixed outside = ⊥

-- What it takes for a sector to be accepted, and what is left to do then.
fix_tail_accepted :
    (later : Bytes → Fixed) (at source : ℕ) (signature bytes : Bytes)
    → at + 2 ≤ length bytes
    → source + 2 ≤ length bytes
    → IsFixed (fix_tail later at signature bytes (copy at 2 bytes) (copy source 2 bytes))
    → (slice at 2 bytes ≡ signature) × IsFixed (later (overwrite at (slice source 2 bytes) bytes))
fix_tail_accepted later at source signature bytes h k passed =
    compared (bytes_eq (slice at 2 bytes) signature) refl (
      subst (λ c. IsFixed (fix_tail later at signature bytes (some (slice at 2 bytes)) c))
        (copy-slice source 2 bytes k)
        (subst (λ c. IsFixed (fix_tail later at signature bytes c (copy source 2 bytes)))
          (copy-slice at 2 bytes h) passed))
  where
    compared :
        (b : Bool)
        → bytes_eq (slice at 2 bytes) signature ≡ b
        → IsFixed (if b then later (overwrite at (slice source 2 bytes) bytes) else refused)
        → (slice at 2 bytes ≡ signature)
          × IsFixed (later (overwrite at (slice source 2 bytes) bytes))
    compared true e go = ((bytes_eq_iff (slice at 2 bytes) signature).0 e, go)
    compared false e go = elim go [ ]

-- The tails of the sectors `i` to `i + left`.
abbrev pub Signed : ℕ → ℕ → ℕ → Bytes → Bytes → Type 0
Signed left i sector_size signature bytes =
    (j : ℕ) → i ≤ j → j < i + left → slice ((j + 1) * sector_size - 2) 2 bytes ≡ signature

fix_sectors-Signed :
    (left i usa_offset sector_size : ℕ) (signature bytes : Bytes)
    → length bytes < 2 ^ 32
    → 2 ≤ sector_size
    → (i + left) * sector_size ≤ length bytes
    → usa_offset + 2 * (i + left + 1) ≤ length bytes
    → IsFixed (fix_sectors left i usa_offset sector_size signature bytes)
    → Signed left i sector_size signature bytes
unfolding fix_sectors
fix_sectors-Signed zero i usa_offset sector_size signature bytes small two covered array passed j h
      k =
    absurd (omega arith)
fix_sectors-Signed (suc left) i usa_offset sector_size signature bytes small two covered array
      passed j h k =
    let at = sector_end-sub ((i + 1) * sector_size) (omega arith) (omega arith) in
    let source = usa_offset + 2 * (i + 1) in
    let here =
      fix_tail_accepted (fix_sectors left (suc i) usa_offset sector_size signature)
        (sector_end sector_size i) source signature bytes (omega (arith, at)) (omega arith)
        passed in
    let long = length-slice source 2 bytes (omega arith) in
    let kept =
      length-overwrite (sector_end sector_size i) (slice source 2 bytes) bytes (omega (arith, at))
        long in
    elim (Bool-cases (j == i)) [
      | inl same ↦
          subst (λ e. slice e 2 bytes ≡ signature)
            (at ∙ ap (λ m. (m + 1) * sector_size - 2) (sym ((==_iff j i).0 same))) here.0
      | inr other ↦
          ap (take 2) (
            sym (
              drop-overwrite (sector_end sector_size i) ((j + 1) * sector_size - 2)
                (slice source 2 bytes) bytes (omega (arith, at)) long
                (omega (arith, at, sectors i j sector_size (later j i h other)))))
          ∙ fix_sectors-Signed left (suc i) usa_offset sector_size signature
              (overwrite (sector_end sector_size i) (slice source 2 bytes) bytes)
              (omega (arith, kept)) two (omega (arith, kept)) (omega (arith, kept)) here.1 j
              (omega (arith, later j i h other)) (omega arith)
    ]
  where
    later : (j i : ℕ) → i ≤ j → (j == i) ≡ false → i < j
    later j i h e = ground arith

    sectors : (i j s : ℕ) → i < j → (i + 1) * s + s ≤ (j + 1) * s
    sectors i j s h = subst (λ m. (i + 1) * s + s ≤ (m + 1) * s) (omega arith) (wide (j - suc i))
      where
        wide : (k : ℕ) → (i + 1) * s + s ≤ (suc i + k + 1) * s
        wide k = omega arith

unrefused : (b : Bool) (x : Fixed) → IsFixed (if b then refused else x) → (b ≡ false) × IsFixed x
unrefused true x h = elim h [ ]
unrefused false x h = (refl, h)

fix_array-Signed :
    (usa_offset usa_count sector_size : ℕ) (bytes : Bytes) (size : ℕ)
    → length bytes ≡ size
    → size < 2 ^ 32
    → 2 ≤ sector_size
    → (usa_count - 1) * sector_size < 2 ^ 32
    → IsFixed (fix_array usa_offset usa_count size sector_size bytes)
    → Signed (usa_count - 1) 0 sector_size (slice usa_offset 2 bytes) bytes
unfolding fix_array
fix_array-Signed usa_offset usa_count sector_size bytes size e small two fits passed =
    let some_sectors = unrefused (usa_count == 0) _ passed in
    let covered = unrefused (ltb size ((usa_count - 1) * sector_size % 2 ^ 32)) _ some_sectors.1 in
    let array = unrefused (ltb size (usa_offset + 2 * usa_count)) _ covered.1 in
    let fits_array = ltb-false _ _ array.0 in
    let counted = nonzero usa_count some_sectors.0 in
    fix_sectors-Signed (usa_count - 1) 0 usa_offset sector_size (slice usa_offset 2 bytes) bytes
      (omega arith) two (omega (arith, fits, e, ltb-false _ _ covered.0))
      (omega (arith, e, fits_array, counted))
      (subst (λ c. IsFixed (fix_signed usa_offset (usa_count - 1) sector_size bytes c))
        (copy-slice usa_offset 2 bytes (omega (arith, e, fits_array, counted))) array.1)

-- A record that is accepted has the signature of its array at the end of each sector that the array
-- covers, for a record of its size below 2 ^ 32 and sectors of 2 to 2 ^ 16 - 1 bytes.
pub apply_update_sequence-Signed :
    (sector_size : ℕ) (bytes out : Bytes) (size : ℕ)
    → AllBytes bytes
    → length bytes ≡ size
    → size < 2 ^ 32
    → 2 ≤ sector_size
    → sector_size < 2 ^ 16
    → apply_update_sequence size sector_size bytes ≡ fixed out
    → Signed
        (from_le (slice 6 2 bytes) - 1)
        0
        sector_size
        (slice (from_le (slice 4 2 bytes)) 2 bytes)
        bytes
unfolding apply_update_sequence
apply_update_sequence-Signed sector_size bytes out size all e small two narrow passed =
    let long = unrefused (ltb size 44) _ (subst IsFixed (sym passed) tt) in
    let room = ltb-false _ _ long.0 in
    fix_array-Signed (from_le (slice 4 2 bytes)) (from_le (slice 6 2 bytes)) sector_size bytes size
      e small two
      (words_product (from_le (slice 6 2 bytes)) sector_size (from_le-slice_lt 2 6 bytes all)
        narrow)
      (subst (λ c. IsFixed (fix_found size sector_size bytes (some (slice 4 2 bytes)) c))
        (copy-slice 6 2 bytes (omega (arith, e, room)))
        (subst (λ c. IsFixed (fix_found size sector_size bytes c (copy 6 2 bytes)))
          (copy-slice 4 2 bytes (omega (arith, e, room))) long.1))
