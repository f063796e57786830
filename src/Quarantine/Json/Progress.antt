-- ===== src/Quarantine/Json/Progress.antt =====
-- How far each read of the scanner moves the cursor: never back, and forward where it matters to the
-- loops that call it.
use vaulkeeper.Prelude.{
  Bool, Bool-cases, Option, [], arith, false, inl, inr, length, none, some, suc, true, ℕ, ◌++◌, ◌<◌,
  ◌==◌, ◌∷◌, ◌≤◌,
}
use vaulkeeper.Prelude.Bytes.{Bytes, bytes_eq, codes}
use vaulkeeper.Prelude.Decimal.{digits_of, is_digit}
use vaulkeeper.Quarantine.Json.{
  Scan, consume, consume_here, found, is_space, missing, peek, peek_here, read_bool, read_bool_here,
  read_chars, read_digits, read_false, read_int, read_int_here, read_key, read_string,
  read_string_here, scanned, skip_whitespace, stoll, strip_prefix, unescape, ◌then_scan◌,
}

-- What is left is no longer than `n`, and shorter where the read found something.
abbrev pub Leaves {ℓ} : {A : Type ℓ} → ℕ → Scan A → Type 0
Leaves n (found _ rest) = suc (length rest) ≤ n
Leaves n (missing rest) = length rest ≤ n

abbrev pub Keeps {ℓ} : {A : Type ℓ} → ℕ → Scan A → Type 0
Keeps n (found _ rest) = length rest ≤ n
Keeps n (missing rest) = length rest ≤ n

module _ {ℓ κ} {A : Type ℓ} {B : Type κ} where
  pub then_scan-Leaves :
      (n : ℕ) (m : Scan A) (k : A → Bytes → Scan B)
      → Leaves n m
      → ((a : A) (rest : Bytes) → suc (length rest) ≤ n → Leaves n (k a rest))
      → Leaves n (m then_scan k)
  then_scan-Leaves n (found a rest) k h f = f a rest h
  then_scan-Leaves n (missing rest) k h f = h

  pub then_scan-Keeps :
      (n : ℕ) (m : Scan A) (k : A → Bytes → Scan B)
      → Keeps n m
      → ((a : A) (rest : Bytes) → length rest ≤ n → Keeps n (k a rest))
      → Keeps n (m then_scan k)
  then_scan-Keeps n (found a rest) k h f = f a rest h
  then_scan-Keeps n (missing rest) k h f = h

module _ {ℓ} {A : Type ℓ} where
  pub Leaves-mono : (m n : ℕ) (s : Scan A) → m ≤ n → Leaves m s → Leaves n s
  Leaves-mono m n (found a rest) h l = omega arith
  Leaves-mono m n (missing rest) h l = omega arith

  pub Keeps-of_Leaves : (n : ℕ) (s : Scan A) → Leaves n s → Keeps n s
  Keeps-of_Leaves n (found a rest) l = omega arith
  Keeps-of_Leaves n (missing rest) l = l

  pub Leaves-of_Keeps : (m n : ℕ) (s : Scan A) → m < n → Keeps m s → Leaves n s
  Leaves-of_Keeps m n (found a rest) h l = omega arith
  Leaves-of_Keeps m n (missing rest) h l = omega arith

pub length-skip_whitespace : (bs : Bytes) → length (skip_whitespace bs) ≤ length bs
unfolding skip_whitespace
length-skip_whitespace [] = omega arith
length-skip_whitespace (c ∷ bs) = elim (Bool-cases (is_space c)) [
  | inl e ↦ rw e (omega (arith, length-skip_whitespace bs))
  | inr e ↦ rw e (omega arith)
]

consume_here-Leaves : (c : ℕ) (bs : Bytes) → Leaves (length bs) (consume_here c bs)
consume_here-Leaves c [] = omega arith
consume_here-Leaves c (d ∷ bs) = elim (Bool-cases (d == c)) [
  | inl e ↦ rw e (omega arith)
  | inr e ↦ rw e (omega arith)
]

pub consume-Leaves : (c : ℕ) (bs : Bytes) → Leaves (length bs) (consume c bs)
unfolding consume
consume-Leaves c bs =
    Leaves-mono _ _ (consume_here c (skip_whitespace bs)) (length-skip_whitespace bs)
      (consume_here-Leaves c (skip_whitespace bs))

peek_here-Keeps : (c : ℕ) (bs : Bytes) → Keeps (length bs) (peek_here c bs)
peek_here-Keeps c [] = omega arith
peek_here-Keeps c (d ∷ bs) = elim (Bool-cases (d == c)) [
  | inl e ↦ rw e (omega arith)
  | inr e ↦ rw e (omega arith)
]

pub Keeps-mono {ℓ} : {A : Type ℓ} (m n : ℕ) (s : Scan A) → m ≤ n → Keeps m s → Keeps n s
Keeps-mono m n (found a rest) h l = omega arith
Keeps-mono m n (missing rest) h l = omega arith

pub peek-Keeps : (c : ℕ) (bs : Bytes) → Keeps (length bs) (peek c bs)
unfolding peek
peek-Keeps c bs =
    Keeps-mono _ _ (peek_here c (skip_whitespace bs)) (length-skip_whitespace bs)
      (peek_here-Keeps c (skip_whitespace bs))

read_chars-Keeps : (out bs : Bytes) → Keeps (length bs) (read_chars out bs)
unfolding read_chars
read_chars-Keeps out [] = omega arith
read_chars-Keeps out (c ∷ []) = elim (Bool-cases (c == b'"')) [
  | inl e ↦ rw e (omega arith)
  | inr e ↦ rw e (omega arith)
]
read_chars-Keeps out (c ∷ next ∷ rest) = elim (Bool-cases (c == b'"')) [
  | inl e ↦ rw e (omega arith)
  | inr e ↦ rw e (elim (Bool-cases (c == b'\\')) [
    | inl q ↦ rw q (
        Keeps-mono _ _ (read_chars (out ++ unescape next ∷ []) rest) (omega arith)
          (read_chars-Keeps (out ++ unescape next ∷ []) rest))
    | inr q ↦ rw q (
        Keeps-mono _ _ (read_chars (out ++ c ∷ []) (next ∷ rest)) (omega arith)
          (read_chars-Keeps (out ++ c ∷ []) (next ∷ rest)))
  ])
]

read_string_here-Leaves : (bs : Bytes) → Leaves (length bs) (read_string_here bs)
read_string_here-Leaves [] = omega arith
read_string_here-Leaves (c ∷ rest) = elim (Bool-cases (c == b'"')) [
  | inl e ↦ rw e (
      Leaves-of_Keeps (length rest) _ (read_chars [] rest) (omega arith) (read_chars-Keeps [] rest))
  | inr e ↦ rw e (omega arith)
]

pub read_string-Leaves : (bs : Bytes) → Leaves (length bs) (read_string bs)
unfolding read_string
read_string-Leaves bs =
    Leaves-mono _ _ (read_string_here (skip_whitespace bs)) (length-skip_whitespace bs)
      (read_string_here-Leaves (skip_whitespace bs))

length-digits_of : (bs : Bytes) → length (digits_of bs).1 ≤ length bs
unfolding digits_of
length-digits_of [] = omega arith
length-digits_of (c ∷ cs) = elim (Bool-cases (is_digit c)) [
  | inl e ↦ rw e (omega (arith, length-digits_of cs))
  | inr e ↦ rw e (omega arith)
]

scanned-Keeps {ℓ} :
    {A : Type ℓ} (n : ℕ) (o : Option A) (rest : Bytes) → length rest ≤ n → Keeps n (scanned o rest)
scanned-Keeps n none rest h = h
scanned-Keeps n (some a) rest h = h

read_digits-Keeps : (negative : Bool) (bs : Bytes) → Keeps (length bs) (read_digits negative bs)
read_digits-Keeps negative bs =
    scanned-Keeps _ (stoll negative (digits_of bs).0) (digits_of bs).1 (length-digits_of bs)

read_int_here-Keeps : (bs : Bytes) → Keeps (length bs) (read_int_here bs)
read_int_here-Keeps [] = omega arith
read_int_here-Keeps (c ∷ rest) = elim (Bool-cases (c == b'-')) [
  | inl e ↦
      rw e (Keeps-mono _ _ (read_digits true rest) (omega arith) (read_digits-Keeps true rest))
  | inr e ↦ rw e (elim (Bool-cases (c == b'+')) [
    | inl q ↦
        rw q (Keeps-mono _ _ (read_digits false rest) (omega arith) (read_digits-Keeps false rest))
    | inr q ↦ rw q (read_digits-Keeps false (c ∷ rest))
  ])
]

pub read_int-Keeps : (bs : Bytes) → Keeps (length bs) (read_int bs)
unfolding read_int
read_int-Keeps bs =
    Keeps-mono _ _ (read_int_here (skip_whitespace bs)) (length-skip_whitespace bs)
      (read_int_here-Keeps (skip_whitespace bs))

abbrev Rest : ℕ → Option Bytes → Type 0
Rest n none = Unit
Rest n (some rest) = length rest ≤ n

strip_prefix-Rest : (ws bs : Bytes) → Rest (length bs) (strip_prefix ws bs)
unfolding strip_prefix
strip_prefix-Rest [] bs = omega arith
strip_prefix-Rest (w ∷ ws) [] = tt
strip_prefix-Rest (w ∷ ws) (c ∷ cs) = elim (Bool-cases (c == w)) [
  | inl e ↦ rw e (Rest-mono (length cs) (strip_prefix ws cs) (strip_prefix-Rest ws cs))
  | inr e ↦ rw e tt
]
  where
    Rest-mono : (n : ℕ) (o : Option Bytes) → Rest n o → Rest (suc n) o
    Rest-mono n none h = h
    Rest-mono n (some rest) h = omega arith

read_bool_here-Keeps :
    (bs : Bytes) (o : Option Bytes) → Rest (length bs) o → Keeps (length bs) (read_bool_here bs o)
read_bool_here-Keeps bs none h =
    read_false-Keeps (strip_prefix (codes "false") bs) (strip_prefix-Rest (codes "false") bs)
  where
    read_false-Keeps : (o : Option Bytes) → Rest (length bs) o → Keeps (length bs) (read_false bs o)
    read_false-Keeps none h = omega arith
    read_false-Keeps (some rest) h = h
read_bool_here-Keeps bs (some rest) h = h

pub read_bool-Keeps : (bs : Bytes) → Keeps (length bs) (read_bool bs)
unfolding read_bool
read_bool-Keeps bs =
    let ws = skip_whitespace bs in
    Keeps-mono _ _ (read_bool_here ws (strip_prefix (codes "true") ws)) (length-skip_whitespace bs)
      (read_bool_here-Keeps ws _ (strip_prefix-Rest (codes "true") ws))

pub read_key-Keeps : (expected bs : Bytes) → Keeps (length bs) (read_key expected bs)
unfolding read_key
read_key-Keeps expected bs =
    then_scan-Keeps _ (read_string (skip_whitespace bs)) _
      (Keeps-mono _ _ (read_string (skip_whitespace bs)) (length-skip_whitespace bs) (
        Keeps-of_Leaves _ (read_string (skip_whitespace bs))
          (read_string-Leaves (skip_whitespace bs))))
      λ a rest h. elim (Bool-cases (bytes_eq a expected)) [
        | inl e ↦ rw e (
            Keeps-mono _ _ (consume b':' rest) h
              (Keeps-of_Leaves _ (consume b':' rest) (consume-Leaves b':' rest)))
        | inr e ↦ rw e h
      ]
