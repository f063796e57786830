-- ===== src/Scheduler/Cron/Bits.antt =====
-- Which bits a field of an expression sets.
use mathlib.Core.Path.{subst}
use vaulkeeper.Prelude.{
  Bool, Bool-cases, List, Option, [], arith, false, get_elem?, get_elem?-set_ne, if◌then◌else◌, inl,
  inr, leb, length, length-replicate, length-set, none, refl, replicate, set, some, suc, true, zero,
  ℕ, ◌++◌, ◌+◌, ◌<◌, ◌||◌, ◌∙◌, ◌∷◌, ◌≡◌, ◌≤◌,
}
use vaulkeeper.Prelude.Bytes.{Bytes, bytes_eq, codes}
use vaulkeeper.Prelude.Decimal.{from_chars}
use vaulkeeper.Prelude.Int.{ltb_ℤ, pos, pos_part, ℤ}
use vaulkeeper.Scheduler.Cron.{
  CronExpression, checked_values, commas_to_blanks, fill_field, fill_fields, parse_cron,
  parse_field, part_values, parts_values, range_of, set_bits, split_at, split_part, stepping,
  with_step, words,
}
use vaulkeeper.Util.Error.{Result, err, fail, invalid_argument, ok, ◌>>=◌}

abbrev pub AllAbove : ℕ → List ℕ → Type 0
AllAbove n [] = Unit
AllAbove n (v ∷ vs) = (n ≤ v) × AllAbove n vs

abbrev AboveIfOk : ℕ → Result (List ℕ) → Type 0
AboveIfOk n (ok vs) = AllAbove n vs
AboveIfOk n (err e) = Unit

AllAbove-append : (n : ℕ) (xs ys : List ℕ) → AllAbove n xs → AllAbove n ys → AllAbove n (xs ++ ys)
AllAbove-append n [] ys h k = k
AllAbove-append n (x ∷ xs) ys h k = (h.0, AllAbove-append n xs ys h.1 k)

stepping-AllAbove : (fuel n v hi step : ℕ) → n ≤ v → AllAbove n (stepping fuel v hi step)
unfolding stepping
stepping-AllAbove zero n v hi step h = tt
stepping-AllAbove (suc fuel) n v hi step h = elim (Bool-cases (leb v hi)) [
  | inl e ↦ rw e (h, stepping-AllAbove fuel n (v + step) hi step (omega arith))
  | inr e ↦ rw e tt
]

checked_values-AboveIfOk :
    (low high : ℕ) (lo hi step : ℤ) → AboveIfOk low (checked_values low high (lo, hi) step)
checked_values-AboveIfOk low high lo hi step = elim (Bool-cases (ltb_ℤ lo (pos low))) [
  | inl e ↦ rw e tt
  | inr e ↦ rw e (
      unless (ltb_ℤ (pos high) hi || ltb_ℤ hi lo || ltb_ℤ step (pos 1)) _ (
        stepping-AllAbove (suc (pos_part hi)) low (pos_part lo) (pos_part hi) (pos_part step)
          (ground (arith, e))))
]
  where
    unless :
        (b : Bool) (vs : List ℕ)
        → AllAbove low vs
        → AboveIfOk low (if b then fail invalid_argument "cron value out of bounds" else ok vs)
    unless true vs h = tt
    unless false vs h = h

part_values-AboveIfOk : (low high : ℕ) (part : Bytes) → AboveIfOk low (part_values low high part)
unfolding part_values
part_values-AboveIfOk low high part = split (split_at b'/' part)
  where
    stepped : (range : Bytes) (o : Option ℤ) → AboveIfOk low (with_step low high range o)
    stepped range none = tt
    stepped range (some step) =
        checked_values-AboveIfOk low high (range_of low high range).0 (range_of low high range).1
          step

    split : (o : Option (Bytes × Bytes)) → AboveIfOk low (split_part low high part o)
    split none = stepped part (some (pos 1))
    split (some (range, step)) = stepped range (from_chars step)

parts_values-AboveIfOk :
    (low high : ℕ) (parts : List Bytes) → AboveIfOk low (parts_values low high parts)
unfolding parts_values
parts_values-AboveIfOk low high [] = tt
parts_values-AboveIfOk low high (part ∷ parts) =
    both (part_values low high part) (parts_values low high parts)
      (part_values-AboveIfOk low high part) (parts_values-AboveIfOk low high parts)
  where
    both :
        (a b : Result (List ℕ))
        → AboveIfOk low a
        → AboveIfOk low b
        → AboveIfOk low (a >>= λ vs. b >>= λ rest. ok (vs ++ rest))
    both (err e) b h k = tt
    both (ok vs) (err e) h k = tt
    both (ok vs) (ok rest) h k = AllAbove-append low vs rest h k

parse_field-AboveIfOk : (field : Bytes) (low high : ℕ) → AboveIfOk low (parse_field field low high)
unfolding parse_field
parse_field-AboveIfOk field low high = elim (Bool-cases (bytes_eq field (codes "*"))) [
  | inl e ↦ rw e (stepping-AllAbove (suc high) low low high 1 (omega arith))
  | inr e ↦ rw e (parts_values-AboveIfOk low high (words (commas_to_blanks field)))
]

-- Bits below the least value stay as they were.
get_elem?-set_bits :
    (vs : List ℕ) (bits : List Bool) (n i : ℕ)
    → AllAbove n vs
    → i < n
    → get_elem? (set_bits vs bits) i ≡ get_elem? bits i
unfolding set_bits
get_elem?-set_bits [] bits n i h l = refl
get_elem?-set_bits (v ∷ vs) bits n i h l =
    get_elem?-set_bits vs (set bits v true) n i h.1 l
    ∙ get_elem?-set_ne bits {i = v} {j = i} true (omega arith)

pub length-set_bits : (vs : List ℕ) (bits : List Bool) → length (set_bits vs bits) ≡ length bits
unfolding set_bits
length-set_bits [] bits = refl
length-set_bits (v ∷ vs) bits = length-set_bits vs (set bits v true) ∙ length-set bits v true

-- What a filled bit set is: of its size, and clear below the least value of its field.
pub record IsFilled (size low : ℕ) (bits : List Bool) : Type 0 where
  pub sized : length bits ≡ size
  pub clear : (i : ℕ) → i < low → i < size → get_elem? bits i ≡ some false

abbrev FilledIfOk : ℕ → ℕ → Result (List Bool) → Type 0
FilledIfOk size low (ok bits) = IsFilled size low bits
FilledIfOk size low (err e) = Unit

pub get_elem?-replicate : (n i : ℕ) (b : Bool) → i < n → get_elem? (replicate n b) i ≡ some b
get_elem?-replicate zero i b h = absurd (omega arith)
get_elem?-replicate (suc n) zero b h = refl
get_elem?-replicate (suc n) (suc i) b h = get_elem?-replicate n i b (omega arith)

fill_field-FilledIfOk :
    (size : ℕ) (field : Bytes) (low high : ℕ) → FilledIfOk size low (fill_field size field low high)
unfolding fill_field
fill_field-FilledIfOk size field low high =
    filled (parse_field field low high) (parse_field-AboveIfOk field low high)
  where
    filled :
        (r : Result (List ℕ))
        → AboveIfOk low r
        → FilledIfOk size low (r >>= λ vs. ok (set_bits vs (replicate size false)))
    filled (err e) h = tt
    filled (ok vs) h = record {
      sized = length-set_bits vs (replicate size false) ∙ length-replicate size false;
      clear = λ i l s.
          get_elem?-set_bits vs (replicate size false) low i h l
          ∙ get_elem?-replicate size i false s;
    }

pub record IsParsed (e : CronExpression) : Type 0 where
  pub minutes : IsFilled 60 0 e.minutes
  pub hours : IsFilled 24 0 e.hours
  pub days_of_month : IsFilled 31 1 e.days_of_month
  pub months : IsFilled 12 1 e.months
  pub days_of_week : IsFilled 7 0 e.days_of_week

abbrev ParsedIfOk : Result CronExpression → Type 0
ParsedIfOk (ok e) = IsParsed e
ParsedIfOk (err _) = Unit

collected :
    (a b c d e : Result (List Bool))
    → FilledIfOk 60 0 a
    → FilledIfOk 24 0 b
    → FilledIfOk 31 1 c
    → FilledIfOk 12 1 d
    → FilledIfOk 7 0 e
    → ParsedIfOk (
        a >>= λ minutes. b >>= λ hours. c >>= λ days_of_month. d >>= λ months. e >>= λ days_of_week.
        ok (record {
          minutes = minutes;
          hours = hours;
          days_of_month = days_of_month;
          months = months;
          days_of_week = days_of_week;
        }))
collected (err _) b c d e f g h i j = tt
collected (ok _) (err _) c d e f g h i j = tt
collected (ok _) (ok _) (err _) d e f g h i j = tt
collected (ok _) (ok _) (ok _) (err _) e f g h i j = tt
collected (ok _) (ok _) (ok _) (ok _) (err _) f g h i j = tt
collected (ok _) (ok _) (ok _) (ok _) (ok _) f g h i j = record {
  minutes = f;
  hours = g;
  days_of_month = h;
  months = i;
  days_of_week = j;
}

fill_fields-ParsedIfOk : (fields : List Bytes) → ParsedIfOk (fill_fields fields)
fill_fields-ParsedIfOk [] = tt
fill_fields-ParsedIfOk (_ ∷ []) = tt
fill_fields-ParsedIfOk (_ ∷ _ ∷ []) = tt
fill_fields-ParsedIfOk (_ ∷ _ ∷ _ ∷ []) = tt
fill_fields-ParsedIfOk (_ ∷ _ ∷ _ ∷ _ ∷ []) = tt
fill_fields-ParsedIfOk (a ∷ b ∷ c ∷ d ∷ e ∷ []) =
    collected _ _ _ _ _ (fill_field-FilledIfOk 60 a 0 59) (fill_field-FilledIfOk 24 b 0 23)
      (fill_field-FilledIfOk 31 c 1 31) (fill_field-FilledIfOk 12 d 1 12)
      (fill_field-FilledIfOk 7 e 0 6)
fill_fields-ParsedIfOk (_ ∷ _ ∷ _ ∷ _ ∷ _ ∷ _ ∷ _) = tt

-- Every expression that is parsed has bit sets of the sizes declared.
pub parse_cron-IsParsed : (text : Bytes) (e : CronExpression) → parse_cron text ≡ ok e → IsParsed e
unfolding parse_cron
parse_cron-IsParsed text e h = subst ParsedIfOk h (fill_fields-ParsedIfOk (words text))
