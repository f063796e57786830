-- ===== src/Quarantine/Index.antt =====
-- `persistIndex` and `loadIndex` of src/core/quarantine/quarantine.cpp, as text. A path stands for its
-- `generic_string()`. A time point counts the 100 ns ticks of the Windows system clock from 1970.
pub mod Fields
pub mod ReadFields
pub mod ReadItems
pub mod Length
pub mod RoundTrip
pub mod Fuel
pub mod Oversized
use vaulkeeper.Prelude.{
  Bool, List, Option, [], false, if◌then◌else◌, length, none, some, suc, true, zero, ℕ, ◌%◌, ◌++◌,
  ◌+◌, ◌-◌, ◌^◌, ◌∷◌,
}
use vaulkeeper.Prelude.Bytes.{Bytes, bytes_eq, codes}
use vaulkeeper.Prelude.Decimal.{print_nat}
use vaulkeeper.Prelude.Int.{negsuc, pos, ℤ}
use vaulkeeper.Quarantine.Json.{
  Scan, consume, found, missing, peek, read_bool, read_int, read_key, read_string, rest_of,
  skip_whitespace, ◌then_scan◌,
}
use vaulkeeper.Quarantine.Json.Numbers.{print_int}
use vaulkeeper.Quarantine.Json.Strings.{quoted}
use vaulkeeper.Util.Time.{from_unix_nanos, to_unix_nanos}

pub record QuarantineItem : Type 0 where
  pub id : Bytes
  pub original_path : Bytes
  pub storage_path : Bytes
  pub original_size_bytes : ℕ
  pub stored_size_bytes : ℕ
  pub captured_at : ℤ
  pub expires_at : ℤ
  pub compressed : Bool
  pub reason : Bytes
  pub correlation_id : Bytes

abbrev pub empty_item : QuarantineItem
empty_item = record {
  id = [];
  original_path = [];
  storage_path = [];
  original_size_bytes = 0;
  stored_size_bytes = 0;
  captured_at = pos 0;
  expires_at = pos 0;
  compressed = false;
  reason = [];
  correlation_id = [];
}

-- The sum of the stored sizes.
unfoldable pub stored_total : List QuarantineItem → ℕ
stored_total [] = 0
stored_total (e ∷ es) = e.stored_size_bytes + stored_total es

-- `static_cast<std::uint64_t>`.
abbrev pub as_uint64 : ℤ → ℕ
as_uint64 (pos n) = n
as_uint64 (negsuc n) = 2 ^ 64 - suc n

abbrev pub bool_text : Bool → Bytes
bool_text true = codes "true"
bool_text false = codes "false"

-- What the loop of `persistIndex` writes for an item, before `rest`.
unfoldable pub item_text : QuarantineItem → Bytes → Bytes
item_text e rest =
    codes "    {\"id\":"
    ++ quoted e.id (
        codes ",\"original\":"
        ++ quoted e.original_path (
            codes ",\"storage\":"
            ++ quoted e.storage_path (
                codes ",\"original_size\":"
                ++ (print_nat e.original_size_bytes
                    ++ (codes ",\"stored_size\":"
                        ++ (print_nat e.stored_size_bytes
                            ++ (codes ",\"captured_ns\":"
                                ++ (print_int (to_unix_nanos e.captured_at)
                                    ++ (codes ",\"expires_ns\":"
                                        ++ (print_int (to_unix_nanos e.expires_at)
                                            ++ (codes ",\"compressed\":"
                                                ++ (bool_text e.compressed
                                                    ++ (codes ",\"reason\":"
                                                        ++ quoted e.reason (
                                                            codes ",\"correlation\":"
                                                            ++ quoted e.correlation_id
                                                            (b'}' ∷ rest)))))))))))))))

unfoldable pub items_text : List QuarantineItem → Bytes → Bytes
unfolding item_text
items_text [] rest = rest
items_text (e ∷ []) rest = item_text e (b'\n' ∷ rest)
items_text (e ∷ e' ∷ es) rest = item_text e (b',' ∷ b'\n' ∷ items_text (e' ∷ es) rest)

unfoldable pub index_text : List QuarantineItem → Bytes
unfolding items_text
index_text items = codes "{\n  \"items\": [\n" ++ items_text items (codes "  ]\n}\n")

-- One field of an item: the value that its key asks for.
abbrev pub store_string : (Bytes → QuarantineItem) → Bytes → Scan QuarantineItem
store_string update bs = read_string bs then_scan λ v rest. found (update v) rest

abbrev pub store_int : (ℤ → QuarantineItem) → Bytes → Scan QuarantineItem
store_int update bs = read_int bs then_scan λ v rest. found (update v) rest

abbrev pub store_bool : (Bool → QuarantineItem) → Bytes → Scan QuarantineItem
store_bool update bs = read_bool bs then_scan λ v rest. found (update v) rest

unfoldable pub set_field : Bytes → QuarantineItem → Bytes → Scan QuarantineItem
unfolding bytes_eq
set_field key item bs =
    if bytes_eq key (codes "id")
    then store_string (λ v. record item { id = v }) bs
    else if bytes_eq key (codes "original")
    then store_string (λ v. record item { original_path = v }) bs
    else if bytes_eq key (codes "storage")
    then store_string (λ v. record item { storage_path = v }) bs
    else if bytes_eq key (codes "original_size")
    then store_int (λ v. record item { original_size_bytes = as_uint64 v }) bs
    else if bytes_eq key (codes "stored_size")
    then store_int (λ v. record item { stored_size_bytes = as_uint64 v }) bs
    else if bytes_eq key (codes "captured_ns")
    then store_int (λ v. record item { captured_at = from_unix_nanos v }) bs
    else if bytes_eq key (codes "expires_ns")
    then store_int (λ v. record item { expires_at = from_unix_nanos v }) bs
    else if bytes_eq key (codes "compressed")
    then store_bool (λ v. record item { compressed = v }) bs
    else if bytes_eq key (codes "reason")
    then store_string (λ v. record item { reason = v }) bs
    else if bytes_eq key (codes "correlation")
    then store_string (λ v. record item { correlation_id = v }) bs
    else missing bs

-- `if (!scanner.consume(',') && !scanner.peek('}'))`, behind a value.
abbrev pub or_brace : QuarantineItem → Scan (Unit {0}) → Scan QuarantineItem
or_brace item (found _ rest) = found item rest
or_brace item (missing rest) = peek b'}' rest then_scan λ _ rest'. found item rest'

unfoldable pub read_field : QuarantineItem → Bytes → Scan QuarantineItem
unfolding set_field read_string consume peek
read_field item bs = read_string (skip_whitespace bs) then_scan λ key behind.
    consume b':' behind then_scan λ _ value.
    set_field key item value then_scan λ item' end. or_brace item' (consume b',' end)

-- The inner loop: the item at its closing brace, or where it turned invalid. `none` is no fuel.
unfoldable pub read_fields : ℕ → QuarantineItem → Bytes → Option (Scan QuarantineItem)
unfolding peek
read_fields zero item bs = none
read_fields (suc fuel) item bs = elim (peek b'}' bs) [
  | found _ rest ↦ some (found item rest)
  | missing rest ↦ elim (read_field item rest) [
    | found item' rest' ↦ read_fields fuel item' rest'
    | missing rest' ↦ some (missing rest')
  ]
]

-- What the outer loop carries: the items so far and the running sum.
pub record Loaded : Type 0 where
  pub items : List QuarantineItem
  pub stored_bytes : ℕ

-- Whether the outer loop goes round again.
pub data Next : Type 0 where
  stop : Loaded → Next
  again : Loaded → Bytes → Next

abbrev pub add_if_valid : Scan QuarantineItem → Loaded → Loaded
add_if_valid (missing _) st = st
add_if_valid (found item _) st = record {
  items = st.items ++ item ∷ [];
  stored_bytes = (st.stored_bytes + item.stored_size_bytes) % 2 ^ 64;
}

-- `if (!scanner.consume(',') && !scanner.peek(']')) { break; }`.
unfoldable pub after_item : Loaded → Bytes → Next
unfolding consume peek
after_item st bs = elim (consume b',' bs) [
  | found _ rest ↦ again st rest
  | missing rest ↦ elim (peek b']' rest) [ found _ rest' ↦ again st rest' | missing _ ↦ stop st ]
]

unfoldable pub close_item : Scan QuarantineItem → Loaded → Next
unfolding consume after_item
close_item s st = elim (consume b'}' (rest_of s)) [
  | missing _ ↦ stop st
  | found _ behind ↦ after_item (add_if_valid s st) behind
]

-- The outer loop.
unfoldable pub read_items : ℕ → Loaded → Bytes → Option Loaded
unfolding peek consume
read_items zero st bs = none
read_items (suc fuel) st bs = elim (peek b']' bs) [
  | found _ _ ↦ some st
  | missing rest ↦ elim (consume b'{' rest) [
    | missing _ ↦ some st
    | found _ inside ↦ elim (read_fields fuel empty_item inside) [
      | none ↦ none
      | some s ↦ elim (close_item s st) [
        | stop st' ↦ some st'
        | again st' rest' ↦ read_items fuel st' rest'
      ]
    ]
  ]
]

abbrev pub nothing_loaded : Loaded
nothing_loaded = record { items = []; stored_bytes = 0 }

-- `loadIndex` on the text of the index, with fuel for both loops.
unfoldable pub load_text_fuel : ℕ → Bytes → Option Loaded
unfolding consume read_key
load_text_fuel fuel raw =
    elim (consume b'{' raw then_scan λ _ a.
    read_key (codes "items") a then_scan λ _ b. consume b'[' b) [
      | missing _ ↦ some nothing_loaded
      | found _ rest ↦ read_items fuel nothing_loaded rest
    ]

-- Each round of either loop reads a character at least.
unfoldable pub load_text : Bytes → Option Loaded
load_text raw = load_text_fuel (length raw + 1) raw
