-- ===== src/Quarantine/Index/ReadItems.antt =====
-- The list of items, as `persistIndex` writes it, is read back.
use vaulkeeper.Prelude.{
  List, Option, [], ap, arith, length, none, refl, some, suc, zero, ℕ, ◌%◌, ◌++◌, ◌+◌, ◌^◌, ◌∙◌,
  ◌∷◌, ◌≡◌, ◌≤◌,
}
use vaulkeeper.Prelude.Bytes.{Bytes, codes}
use vaulkeeper.Quarantine.Index.{
  Loaded, Next, QuarantineItem, after_item, again, close_item, empty_item, item_text, items_text,
  read_fields, read_items, stop,
}
use vaulkeeper.Quarantine.Index.ReadFields.{
  AllStorable, IsStorable, fields_text, read_fields-enough,
}
use vaulkeeper.Quarantine.Json.{Scan, found}

-- The state behind an item, and behind several.
abbrev pub with_item : QuarantineItem → Loaded → Loaded
with_item e st = record {
  items = st.items ++ e ∷ [];
  stored_bytes = (st.stored_bytes + e.stored_size_bytes) % 2 ^ 64;
}

abbrev pub with_items : List QuarantineItem → Loaded → Loaded
with_items [] st = st
with_items (e ∷ es) st = with_items es (with_item e st)

-- The rest of a round, once the fields are read, and once the item is closed.
abbrev pub after_close : ℕ → Next → Option Loaded
after_close fuel next = elim next [
  | stop st' ↦ some st'
  | again st' rest' ↦ read_items fuel st' rest'
]

abbrev pub after_fields : ℕ → Loaded → Option (Scan QuarantineItem) → Option Loaded
after_fields fuel st o = elim o [
  | none ↦ none
  | some s ↦ elim (close_item s st) [
    | stop st' ↦ some st'
    | again st' rest' ↦ read_items fuel st' rest'
  ]
]

close_item-found :
    (e : QuarantineItem) (rest : Bytes) (st : Loaded)
    → close_item (found e (b'}' ∷ rest)) st ≡ after_item (with_item e st) rest
unfolding close_item
close_item-found e rest st = refl

pub read_items_fields :
    (fuel : ℕ) (st : Loaded) (e : QuarantineItem) (rest : Bytes)
    → read_items (suc fuel) st (item_text e rest)
      ≡ after_fields fuel st (read_fields fuel empty_item (fields_text e rest))
unfolding read_items item_text
read_items_fields fuel st e rest = refl

-- One round of the outer loop on a whole item.
pub read_items-item :
    (fuel : ℕ) (st : Loaded) (e : QuarantineItem) (rest : Bytes) (next : Next)
    → 11 ≤ fuel
    → IsStorable e
    → after_item (with_item e st) rest ≡ next
    → read_items (suc fuel) st (item_text e rest) ≡ after_close fuel next
read_items-item fuel st e rest next h s q =
    read_items_fields fuel st e rest
    ∙ ap (after_fields fuel st) (read_fields-enough fuel e rest h s)
    ∙ ap (after_close fuel) (close_item-found e rest st ∙ q)

pub after_item_comma : (st : Loaded) (bs : Bytes) → after_item st (b',' ∷ bs) ≡ again st bs
unfolding after_item
after_item_comma st bs = refl

after_item_last :
    (st : Loaded) (bs : Bytes)
    → after_item st (b'\n' ∷ b' ' ∷ b' ' ∷ b']' ∷ bs) ≡ again st (b']' ∷ bs)
unfolding after_item
after_item_last st bs = refl

-- White space in front of an item changes nothing.
pub read_items_newline :
    (fuel : ℕ) (st : Loaded) (bs : Bytes) → read_items fuel st (b'\n' ∷ bs) ≡ read_items fuel st bs
unfolding read_items
read_items_newline zero st bs = refl
read_items_newline (suc fuel) st bs = refl

abbrev pub ending : Bytes
ending = codes "  ]\n}\n"

pub read_items-items_text :
    (es : List QuarantineItem) (fuel : ℕ) (st : Loaded)
    → length es + 12 ≤ fuel
    → AllStorable es
    → read_items fuel st (items_text es ending) ≡ some (with_items es st)
unfolding items_text
read_items-items_text es zero st h s = absurd (omega arith)
read_items-items_text [] (suc fuel) st h s = unfold read_items in refl
read_items-items_text (e ∷ []) (suc zero) st h s = absurd (omega arith)
read_items-items_text (e ∷ []) (suc (suc fuel)) st h s =
    read_items-item (suc fuel) st e _ _ (omega arith) s.0 (after_item_last (with_item e st) _)
    ∙ (unfold read_items in refl)
read_items-items_text (e ∷ e' ∷ es) (suc fuel) st h s =
    read_items-item fuel st e _ _ (omega arith) s.0 (after_item_comma (with_item e st) _)
    ∙ read_items_newline fuel (with_item e st) _
    ∙ read_items-items_text (e' ∷ es) fuel (with_item e st) (omega arith) s.1
