-- ===== src/Quarantine/Json/Numbers.antt =====
-- What a number is after it was written by `operator<<` and read with `readInt`.
use vaulkeeper.Prelude.{
  Bool, [], ap, arith, false, none, some, suc, true, ℕ, ◌++◌, ◌<◌, ◌^◌, ◌∙◌, ◌∷◌, ◌≡◌, ◌≤◌,
}
use vaulkeeper.Prelude.Bytes.{Bytes}
use vaulkeeper.Prelude.Decimal.{
  AllDigits, digits_of, digits_value, is_digit, print_nat, print_nat-IsDecimal,
}
use vaulkeeper.Prelude.Int.{negsuc, pos, ℤ}
use vaulkeeper.Quarantine.Json.{found, missing, read_digits, read_int, scanned, stoll}

abbrev pub print_int : ℤ → Bytes
print_int (pos n) = print_nat n
print_int (negsuc n) = b'-' ∷ print_nat (suc n)

-- The values of an `int64_t`.
abbrev pub InInt64 : ℤ → Type 0
InInt64 (pos n) = n < 2 ^ 63
InInt64 (negsuc n) = n < 2 ^ 63

digits_of-append :
    (ds : Bytes) (c : ℕ) (rest : Bytes)
    → AllDigits ds
    → is_digit c ≡ false
    → digits_of (ds ++ (c ∷ rest)) ≡ (ds, c ∷ rest)
unfolding digits_of
digits_of-append [] c rest h q = rw q
digits_of-append (d ∷ ds) c rest h q = rw (digits_of-append ds c rest h.1 q) (rw h.0)

stoll_pos :
    (n d : ℕ) (ds : Bytes)
    → digits_value 0 (d ∷ ds) ≡ n
    → n < 2 ^ 63
    → stoll false (d ∷ ds) ≡ some (pos n)
unfolding stoll
stoll_pos n d ds e h = ground arith

stoll_neg :
    (n d : ℕ) (ds : Bytes)
    → digits_value 0 (d ∷ ds) ≡ suc n
    → n < 2 ^ 63
    → stoll true (d ∷ ds) ≡ some (negsuc n)
unfolding stoll
stoll_neg n d ds e h = ground arith

read_int_digit :
    (d : ℕ) (xs : Bytes) → is_digit d ≡ true → read_int (d ∷ xs) ≡ read_digits false (d ∷ xs)
unfolding read_int
read_int_digit d xs h = ground arith

read_digits-IsDecimal :
    (negative : Bool) (d : ℕ) (ds : Bytes) (c : ℕ) (rest : Bytes)
    → is_digit d ≡ true
    → AllDigits ds
    → is_digit c ≡ false
    → read_digits negative (d ∷ (ds ++ (c ∷ rest))) ≡ scanned (stoll negative (d ∷ ds)) (c ∷ rest)
read_digits-IsDecimal negative d ds c rest h k q = rw (digits_of-append (d ∷ ds) c rest (h, k) q)

-- Every 64-bit number is read back, up to the next character that is no digit.
pub read_int-print_int :
    (z : ℤ) (c : ℕ) (rest : Bytes)
    → InInt64 z
    → is_digit c ≡ false
    → read_int (print_int z ++ (c ∷ rest)) ≡ found z (c ∷ rest)
read_int-print_int (pos n) c rest h q =
    let t = print_nat-IsDecimal n (omega arith) in
    rw t.text_is (
      read_int_digit t.first (t.others ++ (c ∷ rest)) t.first_digit
      ∙ read_digits-IsDecimal false t.first t.others c rest t.first_digit t.digits q
      ∙ ap (λ v. scanned v (c ∷ rest)) (stoll_pos n t.first t.others t.value h))
read_int-print_int (negsuc n) c rest h q =
    let t = print_nat-IsDecimal (suc n) (omega arith) in
    rw t.text_is (
      unfold read_int in
      read_digits-IsDecimal true t.first t.others c rest t.first_digit t.digits q
      ∙ ap (λ v. scanned v (c ∷ rest)) (stoll_neg n t.first t.others t.value h))

-- A number that `int64_t` cannot hold is not read.
pub read_int_overflow :
    (n c : ℕ) (rest : Bytes)
    → 2 ^ 63 ≤ n
    → n < 2 ^ 64
    → is_digit c ≡ false
    → read_int (print_nat n ++ (c ∷ rest)) ≡ missing (c ∷ rest)
read_int_overflow n c rest low high q =
    let t = print_nat-IsDecimal n high in
    rw t.text_is (
      read_int_digit t.first (t.others ++ (c ∷ rest)) t.first_digit
      ∙ read_digits-IsDecimal false t.first t.others c rest t.first_digit t.digits q
      ∙ ap (λ v. scanned v (c ∷ rest)) (stoll_overflow t.first t.others (omega (arith, t.value))))
  where
    stoll_overflow :
        (d : ℕ) (ds : Bytes) → 2 ^ 63 ≤ digits_value 0 (d ∷ ds) → stoll false (d ∷ ds) ≡ none
    stoll_overflow d ds h = unfold stoll in ground arith
