-- ===== src/Quarantine/Json.antt =====
-- `escapeJson` and `JsonScanner` of src/core/quarantine/quarantine.cpp. The scanner's state is what
-- lies behind the cursor; each read gives it back, also where the read fails.
pub mod Strings
pub mod Numbers
pub mod Progress
use vaulkeeper.Prelude.{
  Bool, Option, [], false, if◌then◌else◌, leb, ltb, none, some, true, ℕ, ◌%◌, ◌++◌, ◌+◌, ◌-◌, ◌/◌,
  ◌==◌, ◌^◌, ◌||◌, ◌∷◌,
}
use vaulkeeper.Prelude.Bytes.{Bytes, bytes_eq, codes}
use vaulkeeper.Prelude.Decimal.{digits_of, digits_value}
use vaulkeeper.Prelude.Int.{pos, sub_ℕ, ℤ}

-- The control characters that JSON names.
abbrev pub backspace : ℕ
backspace = 8

abbrev pub form_feed : ℕ
form_feed = 12

abbrev pub hex_digit : ℕ → ℕ
hex_digit d = if ltb d 10 then b'0' + d else b'a' + (d - 10)

-- `fmt::format("\\u{:04x}", c)` for a character below 0x20.
abbrev pub unicode_escape : ℕ → Bytes
unicode_escape c = b'\\' ∷ b'u' ∷ b'0' ∷ b'0' ∷ hex_digit (c / 16) ∷ hex_digit (c % 16) ∷ []

unfoldable pub escape_byte : ℕ → Bytes
escape_byte c =
    if c == b'"'
    then b'\\' ∷ b'"' ∷ []
    else if c == b'\\'
    then b'\\' ∷ b'\\' ∷ []
    else if c == backspace
    then b'\\' ∷ b'b' ∷ []
    else if c == form_feed
    then b'\\' ∷ b'f' ∷ []
    else if c == b'\n'
    then b'\\' ∷ b'n' ∷ []
    else if c == b'\r'
    then b'\\' ∷ b'r' ∷ []
    else if c == b'\t'
    then b'\\' ∷ b't' ∷ []
    else if ltb c 0x20
    then unicode_escape c
    else c ∷ []

unfoldable pub escape_json : Bytes → Bytes
unfolding escape_byte
escape_json [] = []
escape_json (c ∷ cs) = escape_byte c ++ escape_json cs

-- What a read found, or that it found nothing, with what lies behind the cursor then.
pub data Scan {ℓ} (A : Type ℓ) : Type ℓ where
  found : A → Bytes → Scan A
  missing : Bytes → Scan A

abbrev pub rest_of {ℓ} : {A : Type ℓ} → Scan A → Bytes
rest_of (found a rest) = rest
rest_of (missing rest) = rest

-- The read goes on from what an earlier one found.
infixl 5 ◌then_scan◌
abbrev pub ◌then_scan◌ {ℓ κ} : {A : Type ℓ} {B : Type κ} → Scan A → (A → Bytes → Scan B) → Scan B
found a rest then_scan k = k a rest
missing rest then_scan k = missing rest

abbrev pub is_space : ℕ → Bool
is_space c = c == b' ' || c == b'\n' || c == b'\r' || c == b'\t'

unfoldable pub skip_whitespace : Bytes → Bytes
skip_whitespace [] = []
skip_whitespace (c ∷ cs) = if is_space c then skip_whitespace cs else c ∷ cs

abbrev pub consume_here : ℕ → Bytes → Scan (Unit {0})
consume_here c [] = missing []
consume_here c (d ∷ rest) = if d == c then found tt rest else missing (d ∷ rest)

unfoldable pub consume : ℕ → Bytes → Scan (Unit {0})
unfolding skip_whitespace
consume c bs = consume_here c (skip_whitespace bs)

abbrev pub peek_here : ℕ → Bytes → Scan (Unit {0})
peek_here c [] = missing []
peek_here c (d ∷ rest) = if d == c then found tt (d ∷ rest) else missing (d ∷ rest)

unfoldable pub peek : ℕ → Bytes → Scan (Unit {0})
unfolding skip_whitespace
peek c bs = peek_here c (skip_whitespace bs)

-- The `switch` on the character behind a backslash.
unfoldable pub unescape : ℕ → ℕ
unescape next =
    if next == b'b'
    then backspace
    else if next == b'f'
    then form_feed
    else if next == b'n'
    then b'\n'
    else if next == b'r'
    then b'\r'
    else if next == b't'
    then b'\t'
    else next

-- The loop of `readString`, behind the opening quote.
unfoldable pub read_chars : Bytes → Bytes → Scan Bytes
unfolding unescape
read_chars out [] = missing []
read_chars out (c ∷ []) = if c == b'"' then found out [] else missing []
read_chars out (c ∷ next ∷ rest) =
    let escaped = read_chars (out ++ unescape next ∷ []) rest in
    let plain = read_chars (out ++ c ∷ []) (next ∷ rest) in
    if c == b'"' then found out (next ∷ rest) else if c == b'\\' then escaped else plain

abbrev pub read_string_here : Bytes → Scan Bytes
read_string_here [] = missing []
read_string_here (c ∷ rest) = if c == b'"' then read_chars [] rest else missing (c ∷ rest)

unfoldable pub read_string : Bytes → Scan Bytes
unfolding skip_whitespace read_chars
read_string bs = read_string_here (skip_whitespace bs)

-- `std::stoll` on a sign and digits: it throws with no digit and where the value does not fit.
unfoldable pub stoll : Bool → Bytes → Option ℤ
unfolding digits_value
stoll negative [] = none
stoll negative (d ∷ ds) =
    let n = digits_value 0 (d ∷ ds) in
    if negative
    then (if leb n (2 ^ 63) then some (sub_ℕ 0 n) else none)
    else if ltb n (2 ^ 63)
    then some (pos n)
    else none

abbrev pub scanned {ℓ} : {A : Type ℓ} → Option A → Bytes → Scan A
scanned none rest = missing rest
scanned (some a) rest = found a rest

abbrev pub read_digits : Bool → Bytes → Scan ℤ
read_digits negative bs = let (ds, rest) = digits_of bs in scanned (stoll negative ds) rest

-- With no sign and no digit the cursor has not moved.
abbrev pub read_int_here : Bytes → Scan ℤ
read_int_here [] = missing []
read_int_here (c ∷ rest) =
    if c == b'-'
    then read_digits true rest
    else if c == b'+'
    then read_digits false rest
    else read_digits false (c ∷ rest)

unfoldable pub read_int : Bytes → Scan ℤ
unfolding skip_whitespace digits_of stoll
read_int bs = read_int_here (skip_whitespace bs)

-- `input.substr(cursor, n) == word`, and what follows the word then.
unfoldable pub strip_prefix : Bytes → Bytes → Option Bytes
strip_prefix [] bs = some bs
strip_prefix (w ∷ ws) [] = none
strip_prefix (w ∷ ws) (c ∷ cs) = if c == w then strip_prefix ws cs else none

abbrev pub read_false : Bytes → Option Bytes → Scan Bool
read_false bs none = missing bs
read_false bs (some rest) = found false rest

abbrev pub read_bool_here : Bytes → Option Bytes → Scan Bool
read_bool_here bs none = read_false bs (strip_prefix (codes "false") bs)
read_bool_here bs (some rest) = found true rest

unfoldable pub read_bool : Bytes → Scan Bool
unfolding skip_whitespace strip_prefix
read_bool bs =
    let here = skip_whitespace bs in read_bool_here here (strip_prefix (codes "true") here)

abbrev pub key_is : Bytes → Bytes → Bytes → Scan (Unit {0})
key_is expected key rest = if bytes_eq key expected then consume b':' rest else missing rest

-- `readKey`: the second run of `skipWhitespace` is that of `readString`.
unfoldable pub read_key : Bytes → Bytes → Scan (Unit {0})
unfolding read_string consume bytes_eq
read_key expected bs = read_string (skip_whitespace bs) then_scan key_is expected
