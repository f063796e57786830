-- ===== src/Quarantine/Index/Length.antt =====
-- How long the text of an index is at least: the fuel that `load_text` gives it.
-- `rest` lies at the end of a text.
use vaulkeeper.Prelude.{List, [], arith, drop, length, ℕ, ◌++◌, ◌+◌, ◌∷◌, ◌≤◌}
use vaulkeeper.Prelude.Bytes.{Bytes, codes}
use vaulkeeper.Prelude.Decimal.{print_nat}
use vaulkeeper.Quarantine.Index.{QuarantineItem, bool_text, item_text, items_text}
use vaulkeeper.Quarantine.Json.{escape_json}
use vaulkeeper.Quarantine.Json.Numbers.{print_int}
use vaulkeeper.Quarantine.Json.Strings.{quoted}
use vaulkeeper.Util.Time.{to_unix_nanos}

data EndsWith (rest : Bytes) : Bytes → Type 0 where
  here : EndsWith rest rest
  there : {b : ℕ} {bs : Bytes} → EndsWith rest bs → EndsWith rest (b ∷ bs)

ends_append : {rest : Bytes} (xs : Bytes) {ys : Bytes} → EndsWith rest ys → EndsWith rest (xs ++ ys)
ends_append [] h = h
ends_append (x ∷ xs) h = there (ends_append xs h)

ends_quoted :
    {rest : Bytes} (s : Bytes) {ys : Bytes} → EndsWith rest ys → EndsWith rest (quoted s ys)
ends_quoted s h = there (ends_append (escape_json s) (there h))

length-EndsWith : {rest bs : Bytes} → EndsWith rest bs → length rest ≤ length bs
length-EndsWith here = omega arith
length-EndsWith (there h) = omega (arith, length-EndsWith h)

length-item_text : (e : QuarantineItem) (rest : Bytes) → length rest + 1 ≤ length (item_text e rest)
unfolding item_text
length-item_text e rest = omega (
  arith,
  length-EndsWith {rest = rest} {bs = drop 1 (item_text e rest)} (
      ends_append (codes "   {\"id\":") (
        ends_quoted e.id (
          ends_append (codes ",\"original\":") (
            ends_quoted e.original_path (
              ends_append (codes ",\"storage\":") (
                ends_quoted e.storage_path (
                  ends_append (codes ",\"original_size\":") (
                    ends_append (print_nat e.original_size_bytes) (
                      ends_append (codes ",\"stored_size\":") (
                        ends_append (print_nat e.stored_size_bytes) (
                          ends_append (codes ",\"captured_ns\":") (
                            ends_append (print_int (to_unix_nanos e.captured_at)) (
                              ends_append (codes ",\"expires_ns\":") (
                                ends_append (print_int (to_unix_nanos e.expires_at)) (
                                  ends_append (codes ",\"compressed\":") (
                                    ends_append (bool_text e.compressed) (
                                      ends_append (codes ",\"reason\":") (
                                        ends_quoted e.reason (
                                          ends_append (codes ",\"correlation\":") (
                                            ends_quoted e.correlation_id
                                              (there here))))))))))))))))))))),
)

pub length-items_text :
    (es : List QuarantineItem) (rest : Bytes)
    → length es + length rest ≤ length (items_text es rest)
unfolding items_text
length-items_text [] rest = omega arith
length-items_text (e ∷ []) rest = omega (arith, length-item_text e (b'\n' ∷ rest))
length-items_text (e ∷ e' ∷ es) rest = omega (
  arith,
  length-items_text (e' ∷ es) rest,
  length-item_text e (b',' ∷ b'\n' ∷ items_text (e' ∷ es) rest),
)
