-- ===== src/Scheduler/Cron.antt =====
-- `parseField`, `fillField`, `parseCron` and `nextFire` of src/core/scheduler/cron.cpp. A bit set is
-- the list of its bits.
pub mod Bits
pub mod Due
pub mod LastMinute
use vaulkeeper.Prelude.{
  Bool, List, Option, [], false, get_elem?, if◌then◌else◌, leb, none, replicate, set, some, suc,
  true, zero, ℕ, ◌&&◌, ◌*◌, ◌++◌, ◌+◌, ◌-◌, ◌==◌, ◌||◌, ◌∷◌,
}
use vaulkeeper.Prelude.Bytes.{Bytes, bytes_eq, codes}
use vaulkeeper.Prelude.Decimal.{from_chars, or_else}
use vaulkeeper.Prelude.Int.{ltb_ℤ, pos, pos_part, ℤ}
use vaulkeeper.Util.Error.{Result, fail, invalid_argument, ok, ◌>>=◌}

-- `std::isspace`, and the words that `>>` reads from a string stream.
abbrev pub is_blank : ℕ → Bool
is_blank c = c == b' ' || leb 9 c && leb c 13

-- The word at the front, and the others.
abbrev pub add_blank : Bytes × List Bytes → Bytes × List Bytes
add_blank ([], ws) = ([], ws)
add_blank (c ∷ w, ws) = ([], (c ∷ w) ∷ ws)

unfoldable pub split_words : Bytes → Bytes × List Bytes
split_words [] = ([], [])
split_words (c ∷ cs) =
    let (w, ws) = split_words cs in if is_blank c then add_blank (w, ws) else (c ∷ w, ws)

unfoldable pub words : Bytes → List Bytes
unfolding split_words
words bs = (add_blank (split_words bs)).1

-- `std::replace(s.begin(), s.end(), ',', ' ')`.
unfoldable pub commas_to_blanks : Bytes → Bytes
commas_to_blanks [] = []
commas_to_blanks (c ∷ cs) = (if c == b',' then b' ' else c) ∷ commas_to_blanks cs

-- What stands before and behind the first `c`: `find` and two calls of `substr`.
abbrev pub push_front : ℕ → Option (Bytes × Bytes) → Option (Bytes × Bytes)
push_front c none = none
push_front c (some (a, b)) = some (c ∷ a, b)

unfoldable pub split_at : ℕ → Bytes → Option (Bytes × Bytes)
split_at c [] = none
split_at c (d ∷ ds) =
    let later = push_front d (split_at c ds) in if d == c then some ([], ds) else later

-- `lo` and `hi` of a part.
abbrev pub bounds_of : ℕ → ℕ → Bytes → Option (Bytes × Bytes) → ℤ × ℤ
bounds_of min_value max_value range (some (lo, hi)) =
    (or_else (from_chars lo) (pos min_value), or_else (from_chars hi) (pos max_value))
bounds_of min_value max_value range none =
    let lo = or_else (from_chars range) (pos min_value) in (lo, lo)

unfoldable pub range_of : ℕ → ℕ → Bytes → ℤ × ℤ
unfolding bytes_eq from_chars split_at
range_of min_value max_value range =
    if bytes_eq range (codes "*")
    then (pos min_value, pos max_value)
    else bounds_of min_value max_value range (split_at b'-' range)

-- `for (int v = lo; v <= hi; v += step)`, with fuel.
unfoldable pub stepping : ℕ → ℕ → ℕ → ℕ → List ℕ
stepping zero v hi step = []
stepping (suc fuel) v hi step =
    let later = stepping fuel (v + step) hi step in if leb v hi then v ∷ later else []

-- The values of a part; the loop makes `hi - lo + 1` rounds at most.
abbrev pub checked_values : ℕ → ℕ → ℤ × ℤ → ℤ → Result (List ℕ)
checked_values min_value max_value (lo, hi) step =
    if ltb_ℤ lo (pos min_value) || ltb_ℤ (pos max_value) hi || ltb_ℤ hi lo || ltb_ℤ step (pos 1)
    then fail invalid_argument "cron value out of bounds"
    else ok (stepping (suc (pos_part hi)) (pos_part lo) (pos_part hi) (pos_part step))

abbrev pub with_step : ℕ → ℕ → Bytes → Option ℤ → Result (List ℕ)
with_step min_value max_value range none = fail invalid_argument "bad cron step"
with_step min_value max_value range (some step) =
    checked_values min_value max_value (range_of min_value max_value range) step

abbrev pub split_part : ℕ → ℕ → Bytes → Option (Bytes × Bytes) → Result (List ℕ)
split_part min_value max_value part none = with_step min_value max_value part (some (pos 1))
split_part min_value max_value part (some (range, step)) =
    with_step min_value max_value range (from_chars step)

unfoldable pub part_values : ℕ → ℕ → Bytes → Result (List ℕ)
unfolding split_at from_chars range_of stepping
part_values min_value max_value part = split_part min_value max_value part (split_at b'/' part)

unfoldable pub parts_values : ℕ → ℕ → List Bytes → Result (List ℕ)
unfolding part_values
parts_values min_value max_value [] = ok []
parts_values min_value max_value (part ∷ parts) = part_values min_value max_value part >>= λ vs.
    parts_values min_value max_value parts >>= λ rest. ok (vs ++ rest)

unfoldable pub parse_field : Bytes → ℕ → ℕ → Result (List ℕ)
unfolding bytes_eq words commas_to_blanks parts_values stepping
parse_field field min_value max_value =
    if bytes_eq field (codes "*")
    then ok (stepping (suc max_value) min_value max_value 1)
    else parts_values min_value max_value (words (commas_to_blanks field))

-- `target.set(v)` where `v < N`: a write out of bounds changes nothing.
unfoldable pub set_bits : List ℕ → List Bool → List Bool
set_bits [] bits = bits
set_bits (v ∷ vs) bits = set_bits vs (set bits v true)

unfoldable pub fill_field : ℕ → Bytes → ℕ → ℕ → Result (List Bool)
unfolding parse_field set_bits
fill_field size field min_value max_value =
    parse_field field min_value max_value >>= λ vs. ok (set_bits vs (replicate size false))

pub record CronExpression : Type 0 where
  pub minutes : List Bool
  pub hours : List Bool
  pub days_of_month : List Bool
  pub months : List Bool
  pub days_of_week : List Bool

abbrev pub fill_fields : List Bytes → Result CronExpression
fill_fields (a ∷ b ∷ c ∷ d ∷ e ∷ []) = fill_field 60 a 0 59 >>= λ minutes.
    fill_field 24 b 0 23 >>= λ hours. fill_field 31 c 1 31 >>= λ days_of_month.
    fill_field 12 d 1 12 >>= λ months. fill_field 7 e 0 6 >>= λ days_of_week. ok (record {
      minutes = minutes;
      hours = hours;
      days_of_month = days_of_month;
      months = months;
      days_of_week = days_of_week;
    })
fill_fields _ = fail invalid_argument "cron expects 5 fields"

unfoldable pub parse_cron : Bytes → Result CronExpression
unfolding words fill_field
parse_cron expression = fill_fields (words expression)

-- `std::tm`, without the seconds, which `nextFire` sets to 0, and the day of the year, which
-- `std::mktime` does not read.
pub record Tm : Type 0 where
  pub tm_min : ℕ
  pub tm_hour : ℕ
  pub tm_mday : ℕ
  pub tm_mon : ℕ
  pub tm_year : ℤ
  pub tm_wday : ℕ
  pub tm_isdst : ℤ

-- The C library: local time of a time point, `std::mktime` as it changes its argument, and the time
-- point of the seconds that it returns.
pub record Calendar : Type 0 where
  pub local_time : ℤ → Tm
  pub mktime : Tm → Tm
  pub time_point : Tm → ℤ

-- What evaluating a chain of calls of `std::bitset::test` comes to: it throws out of range.
pub data Tested : Type 0 where
  yes_all : Tested
  no_some : Tested
  throws : Tested

abbrev pub and_then : Option Bool → Tested → Tested
and_then none later = throws
and_then (some false) later = no_some
and_then (some true) later = later

unfoldable pub due : CronExpression → Tm → Tested
due e t = and_then (get_elem? e.months t.tm_mon) (
    and_then (get_elem? e.days_of_month (t.tm_mday - 1)) (
      and_then (get_elem? e.days_of_week t.tm_wday)
        (and_then (get_elem? e.hours t.tm_hour) (and_then (get_elem? e.minutes t.tm_min) yes_all))))

pub data Search : Type 0 where
  fires : ℤ → Search
  never : Search
  out_of_range : Search

abbrev pub next_minute : Tm → Tm
next_minute t = record t { tm_min = suc t.tm_min }

-- The loop of `nextFire`.
unfoldable pub search : Calendar → CronExpression → ℕ → Tm → Search
unfolding due
search calendar e zero t = never
search calendar e (suc attempts) t =
    let later = search calendar e attempts (calendar.mktime (next_minute t)) in
    elim (due e t) [
      | yes_all ↦ fires (calendar.time_point t)
      | no_some ↦ later
      | throws ↦ out_of_range
    ]

abbrev pub attempts : ℕ
attempts = 366 * 24 * 60

unfoldable pub next_fire : Calendar → CronExpression → ℤ → Search
unfolding search
next_fire calendar e from = search calendar e attempts (next_minute (calendar.local_time from))
