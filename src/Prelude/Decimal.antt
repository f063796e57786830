-- ===== src/Prelude/Decimal.antt =====
-- Decimal text of a number, as `operator<<` and `fmt` write it. Twenty digits are enough for every
-- number below 2 ^ 64.
use native.Mathlib.Nat.{pow-suc}
use vaulkeeper.Prelude.{
  Bool, Bool-cases, Option, [], ap, arith, false, if◌then◌else◌, inl, inr, leb, ltb, none, refl,
  some, suc, sym, true, zero, ℕ, ◌%◌, ◌&&◌, ◌*◌, ◌++◌, ◌+◌, ◌-◌, ◌/◌, ◌<◌, ◌==◌, ◌^◌, ◌∙◌, ◌∷◌, ◌≡◌,
}
use vaulkeeper.Prelude.Bytes.{Bytes}
use vaulkeeper.Prelude.Int.{pos, sub_ℕ, ℤ}

abbrev pub is_digit : ℕ → Bool
is_digit c = leb b'0' c && leb c b'9'

abbrev pub AllDigits : Bytes → Type 0
AllDigits [] = Unit
AllDigits (d ∷ ds) = (is_digit d ≡ true) × AllDigits ds

unfoldable pub digits_value : ℕ → Bytes → ℕ
digits_value acc [] = acc
digits_value acc (d ∷ ds) = digits_value (acc * 10 + (d - b'0')) ds

-- The run of digits at the front, and what follows it.
unfoldable pub digits_of : Bytes → Bytes × Bytes
digits_of [] = ([], [])
digits_of (c ∷ cs) =
    let (ds, rest) = digits_of cs in if is_digit c then (c ∷ ds, rest) else ([], c ∷ cs)

-- `std::from_chars` into an `int`: none where it sets an error, which leaves the variable alone.
abbrev pub in_int : Bool → Bytes → Option ℤ
in_int negative [] = none
in_int negative (d ∷ ds) =
    let n = digits_value 0 (d ∷ ds) in
    if negative
    then if leb n (2 ^ 31) then some (sub_ℕ 0 n) else none
    else if ltb n (2 ^ 31)
    then some (pos n)
    else none

unfoldable pub from_chars : Bytes → Option ℤ
unfolding digits_of digits_value
from_chars [] = none
from_chars (c ∷ cs) =
    if c == b'-' then in_int true (digits_of cs).0 else in_int false (digits_of (c ∷ cs)).0

abbrev pub or_else : Option ℤ → ℤ → ℤ
or_else none d = d
or_else (some z) _ = z

unfoldable pub print_digits : ℕ → ℕ → Bytes
print_digits zero n = []
print_digits (suc fuel) n =
    let longer = print_digits fuel (n / 10) ++ (b'0' + n % 10) ∷ [] in
    if ltb n 10 then (b'0' + n) ∷ [] else longer

unfoldable pub print_nat : ℕ → Bytes
unfolding print_digits
print_nat n = print_digits 20 n

digits_value-concat :
    (ds : Bytes) (acc d : ℕ)
    → digits_value acc (ds ++ d ∷ []) ≡ digits_value acc ds * 10 + (d - b'0')
unfolding digits_value
digits_value-concat [] acc d = refl
digits_value-concat (x ∷ ds) acc d = digits_value-concat ds (acc * 10 + (x - b'0')) d

AllDigits-concat :
    (ds : Bytes) (d : ℕ) → AllDigits ds → is_digit d ≡ true → AllDigits (ds ++ d ∷ [])
AllDigits-concat [] d h k = (k, tt)
AllDigits-concat (x ∷ ds) d h k = (h.0, AllDigits-concat ds d h.1 k)

pub AllDigits-print_digits : (fuel n : ℕ) → AllDigits (print_digits fuel n)
unfolding print_digits
AllDigits-print_digits zero n = tt
AllDigits-print_digits (suc fuel) n = elim (Bool-cases (ltb n 10)) [
  | inl e ↦ rw e (ground arith, tt)
  | inr e ↦ rw e (AllDigits-concat _ _ (AllDigits-print_digits fuel (n / 10)) (ground arith))
]

digits_value-print_digits : (fuel n : ℕ) → n < 10 ^ fuel → digits_value 0 (print_digits fuel n) ≡ n
unfolding print_digits digits_value
digits_value-print_digits zero n h = omega arith
digits_value-print_digits (suc fuel) n h = elim (Bool-cases (ltb n 10)) [
  | inl e ↦ rw e (omega arith)
  | inr e ↦ rw e (
      digits_value-concat (print_digits fuel (n / 10)) 0 (b'0' + n % 10)
      ∙ omega (arith, digits_value-print_digits fuel (n / 10) (omega (arith, pow-suc 10 fuel))))
]

pub digits_value-print_nat : (n : ℕ) → n < 2 ^ 64 → digits_value 0 (print_nat n) ≡ n
unfolding print_nat
digits_value-print_nat n h = digits_value-print_digits 20 n (omega arith)

print_digits_cons : (fuel n : ℕ) → (d : ℕ) × (ds : Bytes) × (print_digits (suc fuel) n ≡ d ∷ ds)
unfolding print_digits
print_digits_cons zero n = elim (Bool-cases (ltb n 10)) [
  | inl e ↦ (b'0' + n, [], rw e)
  | inr e ↦ (b'0' + n % 10, [], rw e)
]
print_digits_cons (suc fuel) n =
    let (d, ds, q) = print_digits_cons fuel (n / 10) in
    elim (Bool-cases (ltb n 10)) [
      | inl e ↦ (b'0' + n, [], rw e)
      | inr e ↦ (d, ds ++ (b'0' + n % 10) ∷ [], rw e (ap (λ xs. xs ++ (b'0' + n % 10) ∷ []) q))
    ]

-- The text of a number is digits, at least one, and they give the number back.
pub record IsDecimal (n : ℕ) (text : Bytes) : Type 0 where
  pub first : ℕ
  pub others : Bytes
  pub text_is : text ≡ first ∷ others
  pub first_digit : is_digit first ≡ true
  pub digits : AllDigits others
  pub value : digits_value 0 (first ∷ others) ≡ n

pub print_nat-IsDecimal : (n : ℕ) → n < 2 ^ 64 → IsDecimal n (print_nat n)
unfolding print_nat
print_nat-IsDecimal n h =
    let (d, ds, q) = print_digits_cons 19 n in
    let digits : AllDigits (d ∷ ds) = rw q at (AllDigits-print_digits 20 n) in
    record {
      first = d;
      others = ds;
      text_is = q;
      first_digit = digits.0;
      digits = digits.1;
      value = ap (digits_value 0) (sym q) ∙ digits_value-print_digits 20 n (omega arith);
    }
