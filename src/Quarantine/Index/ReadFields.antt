-- ===== src/Quarantine/Index/ReadFields.antt =====
-- An item's fields, as `persistIndex` writes them, are read back.
use mathlib.Core.Path.{subst}
use vaulkeeper.Prelude.{
  List, [], arith, refl, some, suc, ℕ, ◌++◌, ◌-◌, ◌<◌, ◌^◌, ◌∙◌, ◌∷◌, ◌≡◌, ◌≤◌,
}
use vaulkeeper.Prelude.Bytes.{Bytes, codes}
use vaulkeeper.Prelude.Decimal.{print_nat}
use vaulkeeper.Quarantine.Index.{QuarantineItem, bool_text, empty_item, read_field, read_fields}
use vaulkeeper.Quarantine.Index.Fields.{
  read_field-captured_at, read_field-compressed, read_field-correlation_id, read_field-expires_at,
  read_field-id, read_field-original_path, read_field-original_size_bytes, read_field-reason,
  read_field-storage_path, read_field-stored_size_bytes,
}
use vaulkeeper.Quarantine.Json.{found}
use vaulkeeper.Quarantine.Json.Numbers.{InInt64, print_int}
use vaulkeeper.Quarantine.Json.Strings.{Named, quoted}
use vaulkeeper.Util.Time.{to_unix_nanos}

-- What the text of an item can hold: no unnamed control characters, sizes and times of 64 bits with
-- a sign.
pub record IsStorable (e : QuarantineItem) : Type 0 where
  pub id : Named e.id
  pub original_path : Named e.original_path
  pub storage_path : Named e.storage_path
  pub original_size_bytes : e.original_size_bytes < 2 ^ 63
  pub stored_size_bytes : e.stored_size_bytes < 2 ^ 63
  pub captured_at : InInt64 (to_unix_nanos e.captured_at)
  pub expires_at : InInt64 (to_unix_nanos e.expires_at)
  pub reason : Named e.reason
  pub correlation_id : Named e.correlation_id

abbrev pub AllStorable : List QuarantineItem → Type 0
AllStorable [] = Unit
AllStorable (e ∷ es) = IsStorable e × AllStorable es

-- The text of an item behind its opening brace.
abbrev pub fields_text : QuarantineItem → Bytes → Bytes
fields_text e rest =
    codes "\"id\":"
    ++ quoted e.id (
        b','
        ∷ (codes "\"original\":"
            ++ quoted e.original_path (
                b','
                ∷ (codes "\"storage\":"
                    ++ quoted e.storage_path (
                        b','
                        ∷ (codes "\"original_size\":"
                            ++ (print_nat e.original_size_bytes
                                ++ (b','
                                    ∷ (codes "\"stored_size\":"
                                        ++ (print_nat e.stored_size_bytes
                                            ++ (b','
                                                ∷ (codes "\"captured_ns\":"
                                                    ++ (print_int (to_unix_nanos e.captured_at)
                                                        ++ (b','
                                                            ∷ (codes "\"expires_ns\":"
                                                            ++ (print_int
                                                            (to_unix_nanos e.expires_at)
                                                            ++ (b','
                                                            ∷ (codes "\"compressed\":"
                                                            ++ (bool_text e.compressed
                                                            ++ (b','
                                                            ∷ (codes "\"reason\":"
                                                            ++ quoted e.reason (
                                                            b','
                                                            ∷ (codes "\"correlation\":"
                                                            ++ quoted e.correlation_id
                                                            (b'}' ∷ rest))))))))))))))))))))))))

pub read_fields-step :
    (fuel : ℕ) (item : QuarantineItem) (bs : Bytes) {item' : QuarantineItem} {rest : Bytes}
    → read_field item (b'"' ∷ bs) ≡ found item' rest
    → read_fields (suc fuel) item (b'"' ∷ bs) ≡ read_fields fuel item' rest
unfolding read_fields
read_fields-step fuel item bs e = rw (e, read_fields)

read_fields_end :
    (fuel : ℕ) (item : QuarantineItem) (rest : Bytes)
    → read_fields (suc fuel) item (b'}' ∷ rest) ≡ some (found item (b'}' ∷ rest))
unfolding read_fields
read_fields_end fuel item rest = refl

-- Eleven rounds read the ten fields and see the brace.
pub read_fields-fields_text :
    (fuel : ℕ) (e : QuarantineItem) (rest : Bytes)
    → IsStorable e
    → read_fields
        (suc (suc (suc (suc (suc (suc (suc (suc (suc (suc (suc fuel)))))))))))
        empty_item
        (fields_text e rest)
      ≡ some (found e (b'}' ∷ rest))
read_fields-fields_text fuel e rest s =
    read_fields-step _ _ _ (read_field-id _ e.id _ s.id)
    ∙ read_fields-step _ _ _ (read_field-original_path _ e.original_path _ s.original_path)
    ∙ read_fields-step _ _ _ (read_field-storage_path _ e.storage_path _ s.storage_path)
    ∙ read_fields-step _ _ _
        (read_field-original_size_bytes _ e.original_size_bytes _ s.original_size_bytes)
    ∙ read_fields-step _ _ _
        (read_field-stored_size_bytes _ e.stored_size_bytes _ s.stored_size_bytes)
    ∙ read_fields-step _ _ _ (read_field-captured_at _ e.captured_at _ s.captured_at)
    ∙ read_fields-step _ _ _ (read_field-expires_at _ e.expires_at _ s.expires_at)
    ∙ read_fields-step _ _ _ (read_field-compressed _ e.compressed _)
    ∙ read_fields-step _ _ _ (read_field-reason _ e.reason _ s.reason)
    ∙ read_fields-step _ _ _ (read_field-correlation_id _ e.correlation_id rest s.correlation_id)
    ∙ read_fields_end fuel e rest

pub read_fields-enough :
    (fuel : ℕ) (e : QuarantineItem) (rest : Bytes)
    → 11 ≤ fuel
    → IsStorable e
    → read_fields fuel empty_item (fields_text e rest) ≡ some (found e (b'}' ∷ rest))
read_fields-enough fuel e rest h s =
    subst (λ f. read_fields f empty_item (fields_text e rest) ≡ some (found e (b'}' ∷ rest)))
      (let q : suc (suc (suc (suc (suc (suc (suc (suc (suc (suc (suc (fuel - 11))))))))))) ≡ fuel =
          omega arith in
        q)
      (read_fields-fields_text (fuel - 11) e rest s)
