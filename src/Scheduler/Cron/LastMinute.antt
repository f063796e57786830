-- ===== src/Scheduler/Cron/LastMinute.antt =====
-- `nextFire` adds a minute before `std::mktime` has normalised the time.
use vaulkeeper.Prelude.{
  ap, arith, false, get_elem?, refl, replicate, some, suc, true, zero, ℕ, ◌-◌, ◌<◌, ◌∷◌, ◌≡◌, ◌≤◌,
}
use vaulkeeper.Prelude.Bytes.{codes}
use vaulkeeper.Prelude.Int.{ℤ}
use vaulkeeper.Scheduler.Cron.{
  Calendar, CronExpression, Tm, due, fill_field, next_fire, next_minute, out_of_range, parse_cron,
  parse_field, search, set_bits, split_words, stepping, throws, words,
}
use vaulkeeper.Scheduler.Cron.Bits.{get_elem?-replicate}
use vaulkeeper.Scheduler.Cron.Due.{IsNormal}
use vaulkeeper.Util.Error.{ok}
use vaulkeeper.Util.Time.{hour}

-- Every minute of every hour, as it is parsed.
abbrev star : CronExpression
star = record {
  minutes = replicate 60 true;
  hours = replicate 24 true;
  days_of_month = false ∷ replicate 30 true;
  months = false ∷ replicate 11 true;
  days_of_week = replicate 7 true;
}

parse_cron-star : parse_cron (codes "* * * * *") ≡ ok star
unfolding parse_cron words split_words fill_field parse_field stepping set_bits
parse_cron-star = refl

star_only : (e : CronExpression) → parse_cron (codes "* * * * *") ≡ ok e → e ≡ star
star_only e p = cc (p, parse_cron-star)

shifted : (n i : ℕ) → 1 ≤ i → i < suc n → get_elem? (false ∷ replicate n true) i ≡ some true
shifted n zero h l = absurd (omega arith)
shifted n (suc i) h l = get_elem?-replicate n i true (omega arith)

due-star :
    (t : Tm)
    → t.tm_hour < 24
    → t.tm_mon < 12
    → t.tm_wday < 7
    → t.tm_mday ≤ 31
    → 1 ≤ t.tm_mon
    → 2 ≤ t.tm_mday
    → t.tm_min ≡ 60
    → due star t ≡ throws
unfolding due
due-star t hour mon wday high month day minute =
    rw
      (
        shifted 11 t.tm_mon month mon,
        shifted 30 (t.tm_mday - 1) (omega arith) (omega arith),
        get_elem?-replicate 7 t.tm_wday true wday,
        get_elem?-replicate 24 t.tm_hour true hour,
        minute,
      )
      refl

search_throws :
    (calendar : Calendar) (e : CronExpression) (n : ℕ) (t : Tm)
    → due e t ≡ throws
    → search calendar e (suc n) t ≡ out_of_range
unfolding search
search_throws calendar e n t d = rw (d, search) refl

-- A search with the expression `* * * * *` in the last minute of an hour throws, but in January and
-- on the first of a month.
pub next_fire_throws :
    (calendar : Calendar) (e : CronExpression) (from : ℤ)
    → parse_cron (codes "* * * * *") ≡ ok e
    → IsNormal (calendar.local_time from)
    → (calendar.local_time from).tm_min ≡ 59
    → 1 ≤ (calendar.local_time from).tm_mon
    → 2 ≤ (calendar.local_time from).tm_mday
    → next_fire calendar e from ≡ out_of_range
unfolding next_fire
next_fire_throws calendar e from p n last month day =
    search_throws calendar e 527039 (next_minute (calendar.local_time from)) (
      rw (star_only e p) (
        due-star (next_minute (calendar.local_time from)) n.hour n.month n.weekday n.day_high month
          day (ap suc last)))
