-- ===== src/Scheduler/Cron/Due.antt =====
-- What `nextFire` finds.
use vaulkeeper.Prelude.{
  Bool, List, Option, [], arith, false, get_elem?, inl, inr, length, none, refl, some, suc, true,
  zero, ℕ, ◌-◌, ◌<◌, ◌∷◌, ◌≡◌, ◌≤◌, ◌⊎◌,
}
use vaulkeeper.Prelude.Bytes.{Bytes}
use vaulkeeper.Prelude.Int.{ℤ}
use vaulkeeper.Scheduler.Cron.{
  Calendar, CronExpression, Search, Tested, Tm, and_then, attempts, due, fires, never, next_fire,
  next_minute, no_some, out_of_range, parse_cron, search, throws, yes_all,
}
use vaulkeeper.Scheduler.Cron.Bits.{IsParsed, parse_cron-IsParsed}
use vaulkeeper.Util.Error.{ok}

-- A broken-down time as `std::mktime` leaves it.
pub record IsNormal (t : Tm) : Type 0 where
  pub minute : t.tm_min < 60
  pub hour : t.tm_hour < 24
  pub day_low : 1 ≤ t.tm_mday
  pub day_high : t.tm_mday ≤ 31
  pub month : t.tm_mon < 12
  pub weekday : t.tm_wday < 7

get_elem?_lem :
    (bits : List Bool) (i n : ℕ)
    → length bits ≡ n
    → i < n
    → (b : Bool) × (get_elem? bits i ≡ some b)
get_elem?_lem [] i n e h = absurd (omega arith)
get_elem?_lem (b ∷ bits) zero n e h = (b, refl)
get_elem?_lem (b ∷ bits) (suc i) n e h = get_elem?_lem bits i (length bits) refl (omega arith)

-- A test inside its bit set does not throw.
abbrev Quiet : Tested → Type 0
Quiet yes_all = Unit
Quiet no_some = Unit
Quiet throws = ⊥

and_then-Quiet :
    (bits : List Bool) (i n : ℕ) (later : Tested)
    → length bits ≡ n
    → i < n
    → Quiet later
    → Quiet (and_then (get_elem? bits i) later)
and_then-Quiet bits i n later e h q =
    let (b, found_bit) = get_elem?_lem bits i n e h in rw found_bit (either b)
  where
    either : (b : Bool) → Quiet (and_then (some b) later)
    either true = q
    either false = tt

due-Quiet : (e : CronExpression) (t : Tm) → IsParsed e → IsNormal t → Quiet (due e t)
unfolding due
due-Quiet e t p n = and_then-Quiet e.months t.tm_mon 12 _ p.months.sized n.month (
    and_then-Quiet e.days_of_month (t.tm_mday - 1) 31 _ p.days_of_month.sized
      (omega (arith, n.day_low, n.day_high))
      (and_then-Quiet e.days_of_week t.tm_wday 7 _ p.days_of_week.sized n.weekday (
        and_then-Quiet e.hours t.tm_hour 24 _ p.hours.sized n.hour
          (and_then-Quiet e.minutes t.tm_min 60 _ p.minutes.sized n.minute tt))))

-- In January, and on the first of a month, no expression is due.
due-no_some :
    (e : CronExpression) (t : Tm)
    → IsParsed e
    → IsNormal t
    → (t.tm_mon ≡ 0) ⊎ (t.tm_mday ≡ 1)
    → due e t ≡ no_some
unfolding due
due-no_some e t p n (inl january) = rw (january, p.months.clear 0 (omega arith) (omega arith)) refl
due-no_some e t p n (inr first) =
    rw (first, p.days_of_month.clear 0 (omega arith) (omega arith))
      (either (get_elem?_lem e.months t.tm_mon 12 p.months.sized n.month))
  where
    either :
        (b : Bool) × (get_elem? e.months t.tm_mon ≡ some b)
        → and_then (get_elem? e.months t.tm_mon) no_some ≡ no_some
    either (true, q) = rw q refl
    either (false, q) = rw q refl

-- The minutes that the loop looks at.
unfoldable pub minute_at : Calendar → Tm → ℕ → Tm
minute_at calendar t zero = t
minute_at calendar t (suc k) = minute_at calendar (calendar.mktime (next_minute t)) k

-- The bit of each of the five sets that stands at the number of a minute's field is set: the month
-- counted from 0, the day of the month less 1, the day of the week, the hour and the minute.
abbrev pub AllSet : CronExpression → Tm → Type 0
AllSet e t =
    (get_elem? e.months t.tm_mon ≡ some true)
    × (get_elem? e.days_of_month (t.tm_mday - 1) ≡ some true)
    × (get_elem? e.days_of_week t.tm_wday ≡ some true)
    × (get_elem? e.hours t.tm_hour ≡ some true)
    × (get_elem? e.minutes t.tm_min ≡ some true)

and_then_yes :
    (o : Option Bool) (later : Tested)
    → and_then o later ≡ yes_all
    → (o ≡ some true) × (later ≡ yes_all)
and_then_yes none later h = absurd (cc h)
and_then_yes (some false) later h = absurd (cc h)
and_then_yes (some true) later h = (refl, h)

due_yes : (e : CronExpression) (t : Tm) → due e t ≡ yes_all → AllSet e t
unfolding due
due_yes e t h =
    let month = and_then_yes _ _ h in
    let day = and_then_yes _ _ month.1 in
    let weekday = and_then_yes _ _ day.1 in
    let hour = and_then_yes _ _ weekday.1 in
    let minute = and_then_yes _ _ hour.1 in (month.0, day.0, weekday.0, hour.0, minute.0)

due_no : (e : CronExpression) (t : Tm) → due e t ≡ no_some → ¬ AllSet e t
unfolding due
due_no e t h (month, day, weekday, hour, minute) = cc (rw (month, day, weekday, hour, minute) at h)

-- What the loop returns, in terms of these minutes.
abbrev pub Describes : Calendar → CronExpression → Tm → ℕ → Search → Type 0
Describes calendar e t n (fires at) =
    (k : ℕ) × (k < n)
    × AllSet e (minute_at calendar t k)
    × (at ≡ calendar.time_point (minute_at calendar t k))
    × ((j : ℕ) → j < k → ¬ AllSet e (minute_at calendar t j))
Describes calendar e t n never = (j : ℕ) → j < n → ¬ AllSet e (minute_at calendar t j)
Describes calendar e t n out_of_range = ⊥

from_first :
    (calendar : Calendar) (e : CronExpression) (t : Tm) (k : ℕ)
    → due e t ≡ no_some
    → ((j : ℕ) → j < k → ¬ AllSet e (minute_at calendar (calendar.mktime (next_minute t)) j))
    → (j : ℕ) → j < suc k
    → ¬ AllSet e (minute_at calendar t j)
unfolding minute_at
from_first calendar e t k d h zero l = due_no e t d
from_first calendar e t k d h (suc j) l = h j (omega arith)

later_found :
    (calendar : Calendar) (e : CronExpression) (n : ℕ) (t : Tm) (s : Search)
    → due e t ≡ no_some
    → Describes calendar e (calendar.mktime (next_minute t)) n s
    → Describes calendar e t (suc n) s
unfolding minute_at
later_found calendar e n t (fires at) d (k, l, y, a, before) =
    (suc k, omega arith, y, a, from_first calendar e t k d before)
later_found calendar e n t never d before = from_first calendar e t n d before
later_found calendar e n t out_of_range d before = elim before [ ]

search-Describes :
    (calendar : Calendar) (e : CronExpression) (n : ℕ) (t : Tm)
    → ((j : ℕ) → j < n → Quiet (due e (minute_at calendar t j)))
    → Describes calendar e t n (search calendar e n t)
unfolding search minute_at
search-Describes calendar e zero t q = λ j h. absurd (omega arith)
search-Describes calendar e (suc n) t q = first (due e t) refl (q 0 (omega arith)) (
    search-Describes calendar e n (calendar.mktime (next_minute t))
      (λ j h. q (suc j) (omega arith)))
  where
    first :
        (r : Tested)
        → due e t ≡ r
        → Quiet r
        → Describes calendar e
            (calendar.mktime (next_minute t))
            n
            (search calendar e n (calendar.mktime (next_minute t)))
        → Describes calendar e t (suc n) (elim r [
          | yes_all ↦ fires (calendar.time_point t)
          | no_some ↦ search calendar e n (calendar.mktime (next_minute t))
          | throws ↦ out_of_range
        ])
    first yes_all d _ h = (0, omega arith, due_yes e t d, refl, λ j l. absurd (omega arith))
    first no_some d _ h = later_found calendar e n t _ d h
    first throws d q h = elim q [ ]

-- `std::mktime` normalises a time that is normal but for a minute added, if it can represent it;
-- where it cannot, it returns -1, and nothing is said of what it leaves.
abbrev pub Normalises : Calendar → (Tm → Bool) → Type 0
Normalises calendar represents =
    (t : Tm)
    → IsNormal t
    → represents (next_minute t) ≡ true
    → IsNormal (calendar.mktime (next_minute t))

minute_at-IsNormal :
    (calendar : Calendar) (represents : Tm → Bool) (t : Tm)
    → Normalises calendar represents
    → IsNormal t
    → (j : ℕ) → ((i : ℕ) → i < j → represents (next_minute (minute_at calendar t i)) ≡ true)
    → IsNormal (minute_at calendar t j)
unfolding minute_at
minute_at-IsNormal calendar represents t m n zero r = n
minute_at-IsNormal calendar represents t m n (suc j) r =
    minute_at-IsNormal calendar represents (calendar.mktime (next_minute t)) m
      (m t n (r 0 (omega arith))) j (λ i h. r (suc i) (omega arith))

-- Where the local time is not in the last minute of an hour, and `std::mktime` can represent the next
-- 366 * 24 * 60 minutes and normalises what it can represent, the search does not throw. It gives the
-- time point of the first of these minutes at which the five bits of the parsed expression are set that
-- stand at its month counted from 0, its day of the month less 1, its day of the week, hour and minute;
-- or it gives none, and there is no such minute among them.
pub next_fire-Describes :
    (calendar : Calendar) (represents : Tm → Bool) (text : Bytes) (e : CronExpression) (from : ℤ)
    → parse_cron text ≡ ok e
    → Normalises calendar represents
    → IsNormal (next_minute (calendar.local_time from))
    → ((j : ℕ)
        → j < attempts
        → represents (next_minute (minute_at calendar (next_minute (calendar.local_time from)) j))
          ≡ true)
    → Describes calendar e
        (next_minute (calendar.local_time from))
        attempts
        (next_fire calendar e from)
unfolding next_fire
next_fire-Describes calendar represents text e from p m n r =
    search-Describes calendar e attempts (next_minute (calendar.local_time from)) λ j h.
      due-Quiet e _ (parse_cron-IsParsed text e p)
        (minute_at-IsNormal calendar represents _ m n j (λ i l. r i (omega arith)))

-- Whatever an expression says, it is not due in January, nor on the first of a month.
pub due-no_some_parsed :
    (text : Bytes) (e : CronExpression) (t : Tm)
    → parse_cron text ≡ ok e
    → IsNormal t
    → (t.tm_mon ≡ 0) ⊎ (t.tm_mday ≡ 1)
    → due e t ≡ no_some
due-no_some_parsed text e t p n first = due-no_some e t (parse_cron-IsParsed text e p) n first
