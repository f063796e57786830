-- ===== src/Prelude/Bytes.antt =====
-- Byte strings as lists of numbers below 256, and little-endian words in them (`memcpy` of an
-- unsigned integer on x64).
use Prim.Native.Char.{code}
use native.Mathlib.Omega.{arith}
use Prim.Native.String.{String}
use native.Mathlib.Nat.{pow-suc}
use vaulkeeper.Prelude.{
  Bool, List, [], ap, drop, false, length, refl, suc, sym, take, true, zero, ℕ, ◌%◌, ◌&&◌, ◌*◌,
  ◌++◌, ◌+◌, ◌/◌, ◌<◌, ◌==◌, ◌^◌, ◌↔◌, ◌∙◌, ◌∷◌, ◌≡◌,
}

abbrev pub Bytes : Type 0
Bytes = List ℕ

-- The code points of a text, which are its bytes when it is ASCII.
abbrev pub codes : String → Bytes
codes String.[] = []
codes (String.◌∷◌ c s) = code c ∷ codes s

abbrev pub AllBytes : Bytes → Type 0
AllBytes [] = Unit
AllBytes (b ∷ bs) = (b < 256) × AllBytes bs

-- `operator==` of two strings.
unfoldable pub bytes_eq : Bytes → Bytes → Bool
bytes_eq [] [] = true
bytes_eq (x ∷ xs) (y ∷ ys) = x == y && bytes_eq xs ys
bytes_eq _ _ = false

pub bytes_eq_iff : (a b : Bytes) → (bytes_eq a b ≡ true) ↔ (a ≡ b)
unfolding bytes_eq
bytes_eq_iff (x ∷ a) (y ∷ b) = ground (arith, bytes_eq_iff a b)
bytes_eq_iff _ _ = ground arith

pub bytes_eq_self : (a : Bytes) → bytes_eq a a ≡ true
bytes_eq_self a = (bytes_eq_iff a a).1 refl

-- The lowest `k` bytes of `n`, the least first.
abbrev pub to_le : ℕ → ℕ → Bytes
to_le zero n = []
to_le (suc k) n = (n % 256) ∷ to_le k (n / 256)

abbrev pub from_le : Bytes → ℕ
from_le [] = 0
from_le (b ∷ bs) = b + 256 * from_le bs

-- `n` bytes from offset `at`.
abbrev pub slice : ℕ → ℕ → Bytes → Bytes
slice at n bs = take n (drop at bs)

pub length-to_le : (k n : ℕ) → length (to_le k n) ≡ k
length-to_le zero n = refl
length-to_le (suc k) n = omega (arith, length-to_le k (n / 256))

pub to_le-AllBytes : (k n : ℕ) → AllBytes (to_le k n)
to_le-AllBytes zero n = tt
to_le-AllBytes (suc k) n = (omega arith, to_le-AllBytes k (n / 256))

-- A word that fits `k` bytes is read back.
pub from_le-to_le : (k n : ℕ) → n < 256 ^ k → from_le (to_le k n) ≡ n
from_le-to_le zero n h = omega arith
from_le-to_le (suc k) n h = omega (arith, from_le-to_le k (n / 256) (omega (arith, pow-suc 256 k)))

pub to_le_injective : (k n m : ℕ) → n < 256 ^ k → m < 256 ^ k → to_le k n ≡ to_le k m → n ≡ m
to_le_injective k n m p q e = sym (from_le-to_le k n p) ∙ ap from_le e ∙ from_le-to_le k m q

pub to_le-append_injective :
    (k n m : ℕ) (xs ys : Bytes)
    → to_le k n ++ xs ≡ to_le k m ++ ys
    → (to_le k n ≡ to_le k m) × (xs ≡ ys)
to_le-append_injective zero n m xs ys e = (refl, e)
to_le-append_injective (suc k) n m xs ys e =
    let rest = to_le-append_injective k (n / 256) (m / 256) xs ys (cc) in (cc, rest.1)

module _ {ℓ} {A : Type ℓ} where
  pub take-append : (k : ℕ) (xs ys : List A) → length xs ≡ k → take k (xs ++ ys) ≡ xs
  take-append zero [] ys h = refl
  take-append zero (x ∷ xs) ys h = absurd (omega arith)
  take-append (suc k) [] ys h = absurd (omega arith)
  take-append (suc k) (x ∷ xs) ys h = ap (◌∷◌ x) (take-append k xs ys (omega arith))

  pub drop-append : (k : ℕ) (xs ys : List A) → length xs ≡ k → drop k (xs ++ ys) ≡ ys
  drop-append zero [] ys h = refl
  drop-append zero (x ∷ xs) ys h = absurd (omega arith)
  drop-append (suc k) [] ys h = absurd (omega arith)
  drop-append (suc k) (x ∷ xs) ys h = drop-append k xs ys (omega arith)

  pub take_all : (xs : List A) → take (length xs) xs ≡ xs
  take_all [] = refl
  take_all (x ∷ xs) = ap (◌∷◌ x) (take_all xs)

pub AllBytes-append : (xs ys : Bytes) → AllBytes xs → AllBytes ys → AllBytes (xs ++ ys)
AllBytes-append [] ys h k = k
AllBytes-append (x ∷ xs) ys h k = (h.0, AllBytes-append xs ys h.1 k)

pub AllBytes-of_append : (xs ys : Bytes) → AllBytes (xs ++ ys) → AllBytes xs × AllBytes ys
AllBytes-of_append [] ys h = (tt, h)
AllBytes-of_append (x ∷ xs) ys h =
    let rest = AllBytes-of_append xs ys h.1 in ((h.0, rest.0), rest.1)

pub AllBytes-drop : (at : ℕ) (bs : Bytes) → AllBytes bs → AllBytes (drop at bs)
AllBytes-drop zero bs h = h
AllBytes-drop (suc at) [] h = tt
AllBytes-drop (suc at) (b ∷ bs) h = AllBytes-drop at bs h.1

pub AllBytes-take : (n : ℕ) (bs : Bytes) → AllBytes bs → AllBytes (take n bs)
AllBytes-take zero bs h = tt
AllBytes-take (suc n) [] h = tt
AllBytes-take (suc n) (b ∷ bs) h = (h.0, AllBytes-take n bs h.1)

pub AllBytes-slice : (at n : ℕ) (bs : Bytes) → AllBytes bs → AllBytes (slice at n bs)
AllBytes-slice at n bs h = AllBytes-take n (drop at bs) (AllBytes-drop at bs h)

-- A word of `n` bytes at most.
pub from_le-slice_lt : (n at : ℕ) (bs : Bytes) → AllBytes bs → from_le (slice at n bs) < 256 ^ n
from_le-slice_lt n at bs h = from_le_lt n (drop at bs) (AllBytes-drop at bs h)
  where
    from_le_lt : (n : ℕ) (bs : Bytes) → AllBytes bs → from_le (take n bs) < 256 ^ n
    from_le_lt zero bs h = omega arith
    from_le_lt (suc n) [] h = omega (arith, pow-suc 256 n, from_le_lt n [] tt)
    from_le_lt (suc n) (b ∷ bs) h = omega (arith, h.0, pow-suc 256 n, from_le_lt n bs h.1)
