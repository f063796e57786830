-- ===== src/Quarantine/Json/Strings.antt =====
-- What a string is after it was written with `escapeJson` and read with `readString`.
use mathlib.Core.List.{append-nil, append_assoc}
use native.Mathlib.Decide.{dec_lt}
use vaulkeeper.Prelude.{
  Bool-cases, [], ap, arith, drop, if◌then◌else◌, inl, inr, length, length-append, ltb, refl, sym,
  ℕ, ◌%◌, ◌++◌, ◌/◌, ◌<◌, ◌==◌, ◌||◌, ◌↔◌, ◌∙◌, ◌∷◌, ◌≡◌, ◌≢◌, ◌≤◌, ◌⊎◌,
}
use vaulkeeper.Prelude.Bytes.{Bytes}
use vaulkeeper.Quarantine.Json.{
  backspace, escape_byte, escape_json, form_feed, found, hex_digit, read_chars, read_string,
  unescape,
}

-- The scanner knows no `\u`: it drops the backslash and keeps the rest of the escape as text.
abbrev pub reread_byte : ℕ → Bytes
reread_byte c =
    if c == b'"'
      || c == b'\\'
      || c == backspace
      || c == form_feed
      || c == b'\n'
      || c == b'\r'
      || c == b'\t'
    then c ∷ []
    else if ltb c 0x20
    then b'u' ∷ b'0' ∷ b'0' ∷ hex_digit (c / 16) ∷ hex_digit (c % 16) ∷ []
    else c ∷ []

abbrev pub reread : Bytes → Bytes
reread [] = []
reread (c ∷ cs) = reread_byte c ++ reread cs

-- The character behind the backslash that stands for `c`.
abbrev mark_of : ℕ → ℕ
mark_of c =
    if c == backspace
    then b'b'
    else if c == form_feed
    then b'f'
    else if c == b'\n'
    then b'n'
    else if c == b'\r'
    then b'r'
    else if c == b'\t'
    then b't'
    else c

abbrev control_text : ℕ → Bytes
control_text c = b'u' ∷ b'0' ∷ b'0' ∷ hex_digit (c / 16) ∷ hex_digit (c % 16) ∷ []

-- How a byte is written and what is read for it.
data Written (c : ℕ) (escape text : Bytes) : Type 0 where
  marked :
      escape ≡ b'\\' ∷ mark_of c ∷ []
      → unescape (mark_of c) ≡ c
      → text ≡ c ∷ []
      → Written c escape text
  control :
      c < 0x20 → escape ≡ b'\\' ∷ control_text c → text ≡ control_text c → Written c escape text
  plain : escape ≡ c ∷ [] → c ≢ b'"' → c ≢ b'\\' → text ≡ c ∷ [] → Written c escape text

escape_byte-Written : (c : ℕ) → Written c (escape_byte c) (reread_byte c)
unfolding escape_byte unescape
escape_byte-Written c = elim (dec_lt c 0x20) [
  | yes low ↦
      elim (Bool-cases
        (c == backspace || c == form_feed || c == b'\n' || c == b'\r' || c == b'\t')) [
          | inl e ↦ marked (ground arith) (ground arith) (ground arith)
          | inr e ↦ control low (ground arith) (ground arith)
        ]
  | no high ↦ elim (Bool-cases (c == b'"' || c == b'\\')) [
    | inl e ↦ marked (ground arith) (ground arith) (ground arith)
    | inr e ↦ plain (ground arith) (ground arith) (ground arith) (ground arith)
  ]
]

read_chars_plain :
    (c : ℕ) (out : Bytes) (y : ℕ) (ys : Bytes)
    → c ≢ b'"'
    → c ≢ b'\\'
    → read_chars out (c ∷ y ∷ ys) ≡ read_chars (out ++ c ∷ []) (y ∷ ys)
unfolding read_chars
read_chars_plain c out y ys p q = ground arith

abbrev AllPlain : Bytes → Type 0
AllPlain [] = Unit
AllPlain (c ∷ cs) = (c ≢ b'"') × (c ≢ b'\\') × AllPlain cs

read_chars-AllPlain :
    (cs out : Bytes) (y : ℕ) (ys : Bytes)
    → AllPlain cs
    → read_chars out (cs ++ (y ∷ ys)) ≡ read_chars (out ++ cs) (y ∷ ys)
read_chars-AllPlain [] out y ys h = ap (λ o. read_chars o (y ∷ ys)) (sym (append-nil out))
read_chars-AllPlain (c ∷ []) out y ys h = read_chars_plain c out y ys h.0 h.1
read_chars-AllPlain (c ∷ d ∷ cs) out y ys h =
    read_chars_plain c out d (cs ++ (y ∷ ys)) h.0 h.1
    ∙ read_chars-AllPlain (d ∷ cs) (out ++ c ∷ []) y ys h.2
    ∙ ap (λ o. read_chars o (y ∷ ys)) (append_assoc out (c ∷ []) (d ∷ cs))

control_text-AllPlain : (c : ℕ) → c < 0x20 → AllPlain (control_text c)
control_text-AllPlain c h = ground arith

read_chars_control :
    (c : ℕ) (out : Bytes) (y : ℕ) (ys : Bytes)
    → c < 0x20
    → read_chars out (b'\\' ∷ (control_text c ++ (y ∷ ys)))
      ≡ read_chars (out ++ control_text c) (y ∷ ys)
unfolding read_chars
read_chars_control c out y ys h =
    read_chars-AllPlain (drop 1 (control_text c)) (out ++ b'u' ∷ []) y ys
      (control_text-AllPlain c h).2
    ∙ ap (λ o. read_chars o (y ∷ ys)) (append_assoc out (b'u' ∷ []) (drop 1 (control_text c)))

read_chars-Written :
    (c : ℕ) {escape text : Bytes} (out : Bytes) (y : ℕ) (ys : Bytes)
    → Written c escape text
    → read_chars out (escape ++ (y ∷ ys)) ≡ read_chars (out ++ text) (y ∷ ys)
read_chars-Written c out y ys (marked e u t) =
    rw (e, t) (unfold read_chars in ap (λ x. read_chars (out ++ x ∷ []) (y ∷ ys)) u)
read_chars-Written c out y ys (control h e t) = rw (e, t) (read_chars_control c out y ys h)
read_chars-Written c out y ys (plain e p q t) = rw (e, t) (read_chars_plain c out y ys p q)

uncons : (xs rest : Bytes) (c : ℕ) → (y : ℕ) × (ys : Bytes) × (xs ++ (c ∷ rest) ≡ y ∷ ys)
uncons [] rest c = (c, rest, refl)
uncons (x ∷ xs) rest c = (x, xs ++ (c ∷ rest), refl)

read_chars_end : (out rest : Bytes) → read_chars out (b'"' ∷ rest) ≡ found out rest
unfolding read_chars
read_chars_end out [] = refl
read_chars_end out (c ∷ rest) = refl

read_chars-escape_json :
    (s out rest : Bytes)
    → read_chars out (escape_json s ++ (b'"' ∷ rest)) ≡ found (out ++ reread s) rest
unfolding escape_json
read_chars-escape_json [] out rest =
    read_chars_end out rest ∙ ap (λ o. found o rest) (sym (append-nil out))
read_chars-escape_json (c ∷ cs) out rest =
    let (y, ys, e) = uncons (escape_json cs) rest b'"' in
    ap (read_chars out)
      (append_assoc (escape_byte c) (escape_json cs) (b'"' ∷ rest) ∙ ap (◌++◌ (escape_byte c)) e)
    ∙ read_chars-Written c out y ys (escape_byte-Written c)
    ∙ ap (read_chars (out ++ reread_byte c)) (sym e)
    ∙ read_chars-escape_json cs (out ++ reread_byte c) rest
    ∙ ap (λ o. found o rest) (append_assoc out (reread_byte c) (reread cs))

-- A string in quotes.
abbrev pub quoted : Bytes → Bytes → Bytes
quoted s rest = b'"' ∷ (escape_json s ++ (b'"' ∷ rest))

-- Every string comes back, but for the control characters that JSON has no short name for: those
-- come back as the text of their escape.
pub read_string-quoted : (s rest : Bytes) → read_string (quoted s rest) ≡ found (reread s) rest
unfolding read_string
read_string-quoted s rest = read_chars-escape_json s [] rest

-- No character below 0x20 but the five with short names.
abbrev pub NamedByte : ℕ → Type 0
NamedByte c =
    (0x20 ≤ c) ⊎ (c ≡ backspace) ⊎ (c ≡ form_feed) ⊎ (c ≡ b'\n') ⊎ (c ≡ b'\r') ⊎ (c ≡ b'\t')

abbrev pub Named : Bytes → Type 0
Named [] = Unit
Named (c ∷ cs) = NamedByte c × Named cs

reread_byte-NamedByte : (c : ℕ) → NamedByte c → reread_byte c ≡ c ∷ []
reread_byte-NamedByte c h = ground arith

reread_byte_cases : (c : ℕ) → NamedByte c ⊎ (reread_byte c ≡ control_text c)
reread_byte_cases c = elim (dec_lt c 0x20) [
  | yes low ↦
      elim (Bool-cases
        (c == backspace || c == form_feed || c == b'\n' || c == b'\r' || c == b'\t')) [
          | inl e ↦ inl (ground arith)
          | inr e ↦ inr (ground arith)
        ]
  | no high ↦ inl (inl (omega arith))
]

reread-Named : (s : Bytes) → Named s → reread s ≡ s
reread-Named [] h = refl
reread-Named (c ∷ cs) h = λ i. reread_byte-NamedByte c h.0 i ++ reread-Named cs h.1 i

length-reread_byte : (c : ℕ) → 1 ≤ length (reread_byte c)
length-reread_byte c = ground arith

length-reread : (s : Bytes) → length s ≤ length (reread s)
length-reread [] = omega arith
length-reread (c ∷ cs) =
    omega (arith, length-append (reread_byte c) (reread cs), length-reread cs, length-reread_byte c)

Named-reread : (s : Bytes) → reread s ≡ s → Named s
Named-reread [] e = tt
Named-reread (c ∷ cs) e = elim (reread_byte_cases c) [
  | inl h ↦ (h, Named-reread cs (cc (e, reread_byte-NamedByte c h)))
  | inr t ↦ absurd (
      omega (
        arith,
        ap length e,
        ap length t,
        length-append (reread_byte c) (reread cs),
        length-reread cs,
      ))
]

-- A string is read back as it was written exactly when it holds no other control character.
pub read_string-quoted_iff :
    (s rest : Bytes) → (read_string (quoted s rest) ≡ found s rest) ↔ Named s
read_string-quoted_iff s rest = (
  (λ e. Named-reread s (cc (e, read_string-quoted s rest))),
  (λ h. read_string-quoted s rest ∙ ap (λ t. found t rest) (reread-Named s h)),
)
