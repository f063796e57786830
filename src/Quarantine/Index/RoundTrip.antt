-- ===== src/Quarantine/Index/RoundTrip.antt =====
-- An index that `persistIndex` wrote is loaded as it was.
use mathlib.Core.List.{append-nil, append_assoc}
use vaulkeeper.Prelude.{
  List, [], ap, arith, length, refl, some, sym, ℕ, ◌%◌, ◌++◌, ◌+◌, ◌^◌, ◌∙◌, ◌∷◌, ◌≡◌,
}
use vaulkeeper.Quarantine.Index.{
  Loaded, QuarantineItem, index_text, items_text, load_text, load_text_fuel, nothing_loaded,
  read_items, stored_total,
}
use vaulkeeper.Quarantine.Index.Length.{length-items_text}
use vaulkeeper.Quarantine.Index.ReadFields.{AllStorable}
use vaulkeeper.Quarantine.Index.ReadItems.{
  ending, read_items-items_text, read_items_newline, with_items,
}

pub load_text-items :
    (es : List QuarantineItem)
    → load_text (index_text es)
      ≡ read_items (length (index_text es) + 1) nothing_loaded (b'\n' ∷ items_text es ending)
unfolding load_text load_text_fuel index_text
load_text-items es = refl

abbrev pub loaded : List QuarantineItem → ℕ → Loaded
loaded es n = record { items = es; stored_bytes = n }

-- Where the list of loaded items ends up.
pub with_items_all :
    (es acc : List QuarantineItem) (n : ℕ)
    → with_items es (loaded acc (n % 2 ^ 64)) ≡ loaded (acc ++ es) ((n + stored_total es) % 2 ^ 64)
unfolding stored_total
with_items_all [] acc n =
    ap (λ xs. loaded xs (n % 2 ^ 64)) (sym (append-nil acc)) ∙ ap (loaded (acc ++ [])) (omega arith)
with_items_all (e ∷ es) acc n =
    ap (λ m. with_items es (loaded (acc ++ e ∷ []) m)) (omega arith)
    ∙ with_items_all es (acc ++ e ∷ []) (n + e.stored_size_bytes)
    ∙ ap (λ xs. loaded xs ((n + e.stored_size_bytes + stored_total es) % 2 ^ 64))
        (append_assoc acc (e ∷ []) es)
    ∙ ap (loaded (acc ++ e ∷ es)) (omega arith)

-- Items that the text can hold come back from it in order, with the sum of their stored sizes as the
-- stored total.
pub load_text-index_text :
    (es : List QuarantineItem)
    → AllStorable es
    → load_text (index_text es)
      ≡ some (record { items = es; stored_bytes = stored_total es % 2 ^ 64 })
unfolding index_text
load_text-index_text es s =
    load_text-items es
    ∙ read_items_newline _ nothing_loaded (items_text es ending)
    ∙ read_items-items_text es _ nothing_loaded (omega (arith, length-items_text es ending)) s
    ∙ ap some (with_items_all es [] 0 ∙ ap (loaded es) (omega arith))
