-- ===== src/Quarantine/Index/Oversized.antt =====
-- A size of 2^63 or more is written as it is and read with `std::stoll`, which refuses it.
use vaulkeeper.Prelude.{
  List, [], ap, arith, length, length-append, refl, some, suc, zero, ℕ, ◌%◌, ◌++◌, ◌+◌, ◌<◌, ◌^◌,
  ◌∙◌, ◌∷◌, ◌≡◌, ◌≤◌,
}
use vaulkeeper.Prelude.Bytes.{Bytes, codes}
use vaulkeeper.Prelude.Decimal.{print_nat}
use vaulkeeper.Prelude.Int.{ℤ}
use vaulkeeper.Quarantine.Index.{
  Loaded, QuarantineItem, as_uint64, close_item, index_text, item_text, items_text, load_text,
  nothing_loaded, or_brace, read_field, read_fields, read_items, stored_total,
}
use vaulkeeper.Quarantine.Index.Fields.{
  read_field-id, read_field-original_path, read_field-storage_path,
}
use vaulkeeper.Quarantine.Index.Length.{length-items_text}
use vaulkeeper.Quarantine.Index.ReadFields.{AllStorable, read_fields-step}
use vaulkeeper.Quarantine.Index.ReadItems.{
  after_fields, after_item_comma, ending, read_items-item, read_items_fields, read_items_newline,
  with_item, with_items,
}
use vaulkeeper.Quarantine.Index.RoundTrip.{load_text-items, loaded, with_items_all}
use vaulkeeper.Quarantine.Json.{Scan, consume, found, missing, ◌then_scan◌}
use vaulkeeper.Quarantine.Json.Numbers.{read_int_overflow}
use vaulkeeper.Quarantine.Json.Strings.{Named}

-- What an index must hold of an item up to its size, and the size that cannot be read.
pub record IsOversized (e : QuarantineItem) : Type 0 where
  pub id : Named e.id
  pub original_path : Named e.original_path
  pub storage_path : Named e.storage_path
  pub above : 2 ^ 63 ≤ e.original_size_bytes
  pub below : e.original_size_bytes < 2 ^ 64

read_field_oversized :
    (item : QuarantineItem) (n : ℕ) (rest : Bytes)
    → 2 ^ 63 ≤ n
    → n < 2 ^ 64
    → read_field item (codes "\"original_size\":" ++ (print_nat n ++ (b',' ∷ rest)))
      ≡ missing (b',' ∷ rest)
unfolding read_field
read_field_oversized item n rest low high =
    ap
      (λ (sc : Scan ℤ).
        (sc then_scan λ v r. found (record item { original_size_bytes = as_uint64 v }) r)
        then_scan λ i end. or_brace i (consume b',' end))
      (read_int_overflow n b',' rest low high refl)

read_fields-missing :
    (fuel : ℕ) (item : QuarantineItem) (bs : Bytes) {rest : Bytes}
    → read_field item (b'"' ∷ bs) ≡ missing rest
    → read_fields (suc fuel) item (b'"' ∷ bs) ≡ some (missing rest)
unfolding read_fields
read_fields-missing fuel item bs e = rw (e, read_fields)

read_items-oversized :
    (fuel : ℕ) (st : Loaded) (e : QuarantineItem) (rest : Bytes)
    → 11 ≤ fuel
    → IsOversized e
    → read_items (suc fuel) st (item_text e rest) ≡ some st
read_items-oversized (suc (suc (suc (suc fuel)))) st e rest h o =
    read_items_fields _ st e rest
    ∙ ap (after_fields (suc (suc (suc (suc fuel)))) st) (
        read_fields-step _ _ _ (read_field-id _ e.id _ o.id)
        ∙ read_fields-step _ _ _ (read_field-original_path _ e.original_path _ o.original_path)
        ∙ read_fields-step _ _ _ (read_field-storage_path _ e.storage_path _ o.storage_path)
        ∙ read_fields-missing _ _ _
            (read_field_oversized _ e.original_size_bytes _ o.above o.below))
    ∙ closing _
  where
    closing :
        (bs : Bytes)
        → after_fields (suc (suc (suc (suc fuel)))) st (some (missing (b',' ∷ bs))) ≡ some st
    closing bs = unfold close_item in refl
read_items-oversized zero st e rest h o = absurd (omega arith)
read_items-oversized (suc zero) st e rest h o = absurd (omega arith)
read_items-oversized (suc (suc zero)) st e rest h o = absurd (omega arith)
read_items-oversized (suc (suc (suc zero))) st e rest h o = absurd (omega arith)

items_text_cons :
    (x : QuarantineItem) (es : List QuarantineItem) (e : QuarantineItem) (fs : List QuarantineItem)
    → items_text (x ∷ (es ++ e ∷ fs)) ending
      ≡ item_text x (b',' ∷ b'\n' ∷ items_text (es ++ e ∷ fs) ending)
unfolding items_text
items_text_cons x [] e fs = refl
items_text_cons x (y ∷ es) e fs = refl

items_text_first :
    (e : QuarantineItem) (fs : List QuarantineItem)
    → (rest : Bytes) × (items_text (e ∷ fs) ending ≡ item_text e rest)
unfolding items_text
items_text_first e [] = (_, refl)
items_text_first e (f ∷ fs) = (_, refl)

read_items-before :
    (es : List QuarantineItem) (e : QuarantineItem) (fs : List QuarantineItem) (fuel : ℕ)
    (st : Loaded)
    → length es + 12 ≤ fuel
    → AllStorable es
    → IsOversized e
    → read_items fuel st (items_text (es ++ e ∷ fs) ending) ≡ some (with_items es st)
read_items-before es e fs zero st h s o = absurd (omega arith)
read_items-before [] e fs (suc fuel) st h s o =
    let (rest, t) = items_text_first e fs in
    rw t (read_items-oversized fuel st e rest (omega arith) o)
read_items-before (x ∷ es) e fs (suc fuel) st h s o = rw (items_text_cons x es e fs) (
    read_items-item fuel st x _ _ (omega arith) s.0 (after_item_comma (with_item x st) _)
    ∙ read_items_newline fuel (with_item x st) _
    ∙ read_items-before es e fs fuel (with_item x st) (omega arith) s.1 o)

-- Where the index can hold all items in front of one of 2^63 to 2^64 - 1 bytes, and the id and the
-- paths of that one, exactly those in front come back when the index is loaded, with the sum of their
-- stored sizes in 64 bits; the large one and all items behind it are lost.
pub load_text_oversized :
    (es : List QuarantineItem) (e : QuarantineItem) (fs : List QuarantineItem)
    → AllStorable es
    → IsOversized e
    → load_text (index_text (es ++ e ∷ fs))
      ≡ some (record { items = es; stored_bytes = stored_total es % 2 ^ 64 })
unfolding index_text
load_text_oversized es e fs s o =
    load_text-items (es ++ e ∷ fs)
    ∙ read_items_newline _ nothing_loaded (items_text (es ++ e ∷ fs) ending)
    ∙ read_items-before es e fs _ nothing_loaded
        (omega (arith, length-items_text (es ++ e ∷ fs) ending, length-append es (e ∷ fs))) s o
    ∙ ap some (with_items_all es [] 0 ∙ ap (loaded es) (omega arith))
