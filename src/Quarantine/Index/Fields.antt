-- ===== src/Quarantine/Index/Fields.antt =====
-- Each field of an item is read back as it was written.
use vaulkeeper.Prelude.{
  Bool, ap, arith, false, refl, suc, true, ℕ, ◌*◌, ◌++◌, ◌+◌, ◌/◌, ◌<◌, ◌^◌, ◌∙◌, ◌∷◌, ◌≡◌,
}
use vaulkeeper.Prelude.Bytes.{Bytes, codes}
use vaulkeeper.Prelude.Decimal.{print_nat}
use vaulkeeper.Prelude.Int.{negsuc, pos, sub_ℕ, ℤ}
use vaulkeeper.Quarantine.Index.{
  QuarantineItem, as_uint64, bool_text, or_brace, read_field, store_int, store_string,
}
use vaulkeeper.Quarantine.Json.{Scan, consume, found, read_bool, ◌then_scan◌}
use vaulkeeper.Quarantine.Json.Numbers.{InInt64, print_int, read_int-print_int}
use vaulkeeper.Quarantine.Json.Strings.{Named, quoted, read_string-quoted_iff}
use vaulkeeper.Util.Time.{from_unix_nanos, to_unix_nanos}

string_field :
    (update : Bytes → QuarantineItem) (s rest : Bytes)
    → Named s
    → (store_string update (quoted s (b',' ∷ rest)) then_scan λ item end.
        or_brace item (consume b',' end))
      ≡ found (update s) rest
unfolding consume
string_field update s rest h =
    ap
      (λ (sc : Scan Bytes). (sc then_scan λ v r. found (update v) r) then_scan λ item end.
        or_brace item (consume b',' end))
      ((read_string-quoted_iff s (b',' ∷ rest)).1 h)

int_field :
    (update : ℤ → QuarantineItem) (z : ℤ) (rest : Bytes)
    → InInt64 z
    → (store_int update (print_int z ++ (b',' ∷ rest)) then_scan λ item end.
        or_brace item (consume b',' end))
      ≡ found (update z) rest
unfolding consume
int_field update z rest h =
    ap
      (λ (sc : Scan ℤ). (sc then_scan λ v r. found (update v) r) then_scan λ item end.
        or_brace item (consume b',' end))
      (read_int-print_int z b',' rest h refl)

pub read_field-id :
    (item : QuarantineItem) (s rest : Bytes)
    → Named s
    → read_field item (codes "\"id\":" ++ quoted s (b',' ∷ rest))
      ≡ found (record item { id = s }) rest
unfolding read_field
read_field-id item s rest h = string_field (λ v. record item { id = v }) s rest h

pub read_field-original_path :
    (item : QuarantineItem) (s rest : Bytes)
    → Named s
    → read_field item (codes "\"original\":" ++ quoted s (b',' ∷ rest))
      ≡ found (record item { original_path = s }) rest
unfolding read_field
read_field-original_path item s rest h =
    string_field (λ v. record item { original_path = v }) s rest h

pub read_field-storage_path :
    (item : QuarantineItem) (s rest : Bytes)
    → Named s
    → read_field item (codes "\"storage\":" ++ quoted s (b',' ∷ rest))
      ≡ found (record item { storage_path = s }) rest
unfolding read_field
read_field-storage_path item s rest h =
    string_field (λ v. record item { storage_path = v }) s rest h

pub read_field-reason :
    (item : QuarantineItem) (s rest : Bytes)
    → Named s
    → read_field item (codes "\"reason\":" ++ quoted s (b',' ∷ rest))
      ≡ found (record item { reason = s }) rest
unfolding read_field
read_field-reason item s rest h = string_field (λ v. record item { reason = v }) s rest h

pub read_field-original_size_bytes :
    (item : QuarantineItem) (n : ℕ) (rest : Bytes)
    → n < 2 ^ 63
    → read_field item (codes "\"original_size\":" ++ (print_nat n ++ (b',' ∷ rest)))
      ≡ found (record item { original_size_bytes = n }) rest
unfolding read_field
read_field-original_size_bytes item n rest h =
    int_field (λ v. record item { original_size_bytes = as_uint64 v }) (pos n) rest h

pub read_field-stored_size_bytes :
    (item : QuarantineItem) (n : ℕ) (rest : Bytes)
    → n < 2 ^ 63
    → read_field item (codes "\"stored_size\":" ++ (print_nat n ++ (b',' ∷ rest)))
      ≡ found (record item { stored_size_bytes = n }) rest
unfolding read_field
read_field-stored_size_bytes item n rest h =
    int_field (λ v. record item { stored_size_bytes = as_uint64 v }) (pos n) rest h

-- Ticks survive the way through nanoseconds.
pub from_unix_nanos-to_unix_nanos : (t : ℤ) → from_unix_nanos (to_unix_nanos t) ≡ t
unfolding from_unix_nanos to_unix_nanos
from_unix_nanos-to_unix_nanos (pos n) = ap pos (omega arith)
from_unix_nanos-to_unix_nanos (negsuc n) =
    ap (sub_ℕ 0) (let e : suc (n * 100 + 99) / 100 ≡ suc n = omega arith in e) ∙ sub_ℕ_zero n
  where
    sub_ℕ_zero : (m : ℕ) → sub_ℕ 0 (suc m) ≡ negsuc m
    sub_ℕ_zero m = ground arith

pub read_field-captured_at :
    (item : QuarantineItem) (t : ℤ) (rest : Bytes)
    → InInt64 (to_unix_nanos t)
    → read_field item (codes "\"captured_ns\":" ++ (print_int (to_unix_nanos t) ++ (b',' ∷ rest)))
      ≡ found (record item { captured_at = t }) rest
unfolding read_field
read_field-captured_at item t rest h =
    int_field (λ v. record item { captured_at = from_unix_nanos v }) (to_unix_nanos t) rest h
    ∙ ap (λ u. found (record item { captured_at = u }) rest) (from_unix_nanos-to_unix_nanos t)

pub read_field-expires_at :
    (item : QuarantineItem) (t : ℤ) (rest : Bytes)
    → InInt64 (to_unix_nanos t)
    → read_field item (codes "\"expires_ns\":" ++ (print_int (to_unix_nanos t) ++ (b',' ∷ rest)))
      ≡ found (record item { expires_at = t }) rest
unfolding read_field
read_field-expires_at item t rest h =
    int_field (λ v. record item { expires_at = from_unix_nanos v }) (to_unix_nanos t) rest h
    ∙ ap (λ u. found (record item { expires_at = u }) rest) (from_unix_nanos-to_unix_nanos t)

pub read_field-compressed :
    (item : QuarantineItem) (b : Bool) (rest : Bytes)
    → read_field item (codes "\"compressed\":" ++ (bool_text b ++ (b',' ∷ rest)))
      ≡ found (record item { compressed = b }) rest
unfolding read_field read_bool
read_field-compressed item true rest = refl
read_field-compressed item false rest = refl

-- The last field ends with the item's closing brace, which stays in front of the cursor.
pub read_field-correlation_id :
    (item : QuarantineItem) (s rest : Bytes)
    → Named s
    → read_field item (codes "\"correlation\":" ++ quoted s (b'}' ∷ rest))
      ≡ found (record item { correlation_id = s }) (b'}' ∷ rest)
unfolding read_field
read_field-correlation_id item s rest h =
    ap
      (λ (sc : Scan Bytes).
        (sc then_scan λ v r. found (record item { correlation_id = v }) r) then_scan λ item' end.
        or_brace item' (consume b',' end))
      ((read_string-quoted_iff s (b'}' ∷ rest)).1 h)
