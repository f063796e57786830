-- ===== src/Quarantine/Store/Items.antt =====
-- What is looked up and erased in the list of items, and what that takes from the sum of sizes.
use mathlib.Core.Option.{none-ne-some, some-injective}
use vaulkeeper.Prelude.{
  Bool-cases, List, [], ap, arith, inl, inr, some, sym, ◌++◌, ◌+◌, ◌∙◌, ◌∷◌, ◌≡◌,
}
use vaulkeeper.Prelude.Bytes.{Bytes, bytes_eq, bytes_eq_iff}
use vaulkeeper.Quarantine.Index.{QuarantineItem, stored_total}
use vaulkeeper.Quarantine.Store.{erase_item, find_item}

pub stored_total-append :
    (xs ys : List QuarantineItem) → stored_total (xs ++ ys) ≡ stored_total xs + stored_total ys
unfolding stored_total
stored_total-append [] ys = omega arith
stored_total-append (x ∷ xs) ys = omega (arith, stored_total-append xs ys)

-- Erasing what was found takes its size, and no more, from the sum.
pub stored_total-erase_item :
    (item_id : Bytes) (items : List QuarantineItem) (item : QuarantineItem)
    → find_item item_id items ≡ some item
    → stored_total items ≡ item.stored_size_bytes + stored_total (erase_item item_id items)
unfolding stored_total find_item erase_item
stored_total-erase_item item_id [] item h = absurd (none-ne-some item h)
stored_total-erase_item item_id (q ∷ qs) item h = elim (Bool-cases (bytes_eq q.id item_id)) [
  | inl e ↦
      rw e (ap (λ i. i.stored_size_bytes + stored_total qs) (some-injective q item (rw e at h)))
  | inr e ↦ rw e (omega (arith, stored_total-erase_item item_id qs item (rw e at h)))
]

pub find_item-id :
    (item_id : Bytes) (items : List QuarantineItem) (item : QuarantineItem)
    → find_item item_id items ≡ some item
    → item.id ≡ item_id
unfolding find_item
find_item-id item_id [] item h = absurd (none-ne-some item h)
find_item-id item_id (q ∷ qs) item h = elim (Bool-cases (bytes_eq q.id item_id)) [
  | inl e ↦
      ap (λ i. i.id) (sym (some-injective q item (rw e at h))) ∙ (bytes_eq_iff q.id item_id).0 e
  | inr e ↦ find_item-id item_id qs item (rw e at h)
]
