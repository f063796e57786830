-- ===== src/Scheduler/Tests.antt =====
-- The search for a cron expression on a calendar that has one day.
use vaulkeeper.Prelude.{
  [], arith, false, inl, inr, none, refl, replicate, suc, true, ℕ, ◌++◌, ◌∷◌, ◌≡◌, ◌≢◌,
}
use vaulkeeper.Prelude.Bytes.{Bytes, codes}
use vaulkeeper.Prelude.Decimal.{digits_of, digits_value, from_chars}
use vaulkeeper.Prelude.Int.{pos, ℤ, ◌+ℤ◌}
use vaulkeeper.Scheduler.Cron.{
  Calendar, CronExpression, Tm, attempts, commas_to_blanks, due, fill_field, fires, next_fire,
  next_minute, no_some, out_of_range, parse_cron, parse_field, parts_values, range_of, search,
  set_bits, split_at, split_words, stepping, words, yes_all,
}
use vaulkeeper.Scheduler.Cron.Due.{Describes, IsNormal, due-no_some_parsed, next_fire-Describes}
use vaulkeeper.Scheduler.Cron.LastMinute.{next_fire_throws}
use vaulkeeper.Scheduler.Loop.{
  ScheduledTask, Scheduler, cancel, choose, choosing, earliest, find_task, finish, run_events,
  started, waiting, wake,
}
use vaulkeeper.Scheduler.Loop.Order.{AllLater, IsTask, earliest-AllLater}
use vaulkeeper.Scheduler.Loop.Rounds.{AllDue, cancel-fires, round-fires, run_events-AllDue}
use vaulkeeper.Util.Error.{fail, invalid_argument, ok}
use vaulkeeper.Util.Time.{one_second}

-- A clock that stands still at an afternoon in March.
abbrev march : Tm
march = record {
  tm_min = 59;
  tm_hour = 14;
  tm_mday = 2;
  tm_mon = 2;
  tm_year = pos 126;
  tm_wday = 1;
  tm_isdst = pos 0;
}

abbrev noon : Tm
noon = record march { tm_min = 0; tm_hour = 12 }

abbrev test_calendar : Tm → Calendar
test_calendar now = record {
  local_time = λ at. now;
  mktime = λ t. noon;
  time_point = λ t. pos t.tm_min;
}

march-IsNormal : IsNormal march
march-IsNormal = record {
  minute = omega arith;
  hour = omega arith;
  day_low = omega arith;
  day_high = omega arith;
  month = omega arith;
  weekday = omega arith;
}

noon-IsNormal : IsNormal noon
noon-IsNormal = record {
  minute = omega arith;
  hour = omega arith;
  day_low = omega arith;
  day_high = omega arith;
  month = omega arith;
  weekday = omega arith;
}

after_noon-IsNormal : IsNormal (next_minute noon)
after_noon-IsNormal = record {
  minute = omega arith;
  hour = omega arith;
  day_low = omega arith;
  day_high = omega arith;
  month = omega arith;
  weekday = omega arith;
}

-- The expression for every minute.
abbrev star_text : Bytes
star_text = codes "* * * * *"

abbrev parsed_star : CronExpression
parsed_star = record {
  minutes = replicate 60 true;
  hours = replicate 24 true;
  days_of_month = false ∷ replicate 30 true;
  months = false ∷ replicate 11 true;
  days_of_week = replicate 7 true;
}

star_parsed : parse_cron star_text ≡ ok parsed_star
unfolding parse_cron words split_words fill_field parse_field stepping set_bits
star_parsed = refl

next_fire_throws_example : next_fire (test_calendar march) parsed_star (pos 0) ≡ out_of_range
next_fire_throws_example =
    next_fire_throws (test_calendar march) parsed_star (pos 0) star_parsed march-IsNormal refl
      (omega arith) (omega arith)

next_fire-Describes_example :
    Describes
      (test_calendar noon)
      parsed_star
      (next_minute noon)
      attempts
      (next_fire (test_calendar noon) parsed_star (pos 0))
next_fire-Describes_example =
    next_fire-Describes (test_calendar noon) (λ t. true) star_text parsed_star (pos 0) star_parsed
      (λ t n r. noon-IsNormal) after_noon-IsNormal (λ j h. refl)

abbrev new_year : Tm
new_year = record noon { tm_mon = 0; tm_mday = 1 }

new_year-IsNormal : IsNormal new_year
new_year-IsNormal = record {
  minute = omega arith;
  hour = omega arith;
  day_low = omega arith;
  day_high = omega arith;
  month = omega arith;
  weekday = omega arith;
}

due-no_some_parsed_example : due parsed_star new_year ≡ no_some
due-no_some_parsed_example =
    due-no_some_parsed star_text parsed_star new_year star_parsed new_year-IsNormal (inl refl)

ranges : parse_field (codes "10-20/5,1,*/30") 0 59 ≡ ok (10 ∷ 15 ∷ 20 ∷ 1 ∷ 0 ∷ 30 ∷ [])
unfolding parse_field commas_to_blanks words split_words parts_values split_at range_of from_chars
    digits_of digits_value stepping
ranges = refl

too_high : parse_field (codes "60") 0 59 ≡ fail invalid_argument "cron value out of bounds"
unfolding parse_field commas_to_blanks words split_words parts_values split_at range_of from_chars
    digits_of digits_value
too_high = refl

-- Two tasks, the second of which is due first.
abbrev late_task : ScheduledTask
late_task = record { id = codes "late"; cron = parsed_star; action = 1; next_run = pos 70 }

abbrev soon_task : ScheduledTask
soon_task = record { id = codes "soon"; cron = parsed_star; action = 2; next_run = pos 60 }

abbrev two_tasks : Scheduler
two_tasks = record started { tasks = late_task ∷ soon_task ∷ [] }

-- A minute that is due is the answer.
search-due :
    (calendar : Calendar) (e : CronExpression) (n : ℕ) (t : Tm)
    → due e t ≡ yes_all
    → search calendar e (suc n) t ≡ fires (calendar.time_point t)
unfolding search
search-due calendar e n t h = rw (h, search) refl

noon-due : due parsed_star (next_minute noon) ≡ yes_all
unfolding due
noon-due = refl

-- At noon, the expression for every minute is due in the first minute that is tried.
quiet_fire : (at : ℤ) → next_fire (test_calendar noon) parsed_star at ≡ fires (pos 1)
unfolding next_fire
quiet_fire at = search-due (test_calendar noon) parsed_star 527039 (next_minute noon) noon-due

quiet_at :
    (at : ℤ) (u t : ScheduledTask)
    → t.cron ≡ parsed_star
    → u ≡ t
    → next_fire (test_calendar noon) u.cron at ≢ out_of_range
quiet_at at u t c e = rw e (rw c (rw (quiet_fire at) (λ h. cc h)))

round-fires_example :
    let s = run_events (test_calendar noon) (choose ∷ wake (pos 61) ∷ finish ∷ []) two_tasks in
    (s.fired ≡ two_tasks.fired ++ (earliest late_task (soon_task ∷ []), pos 61) ∷ [])
    × (s.phase ≡ choosing)
round-fires_example =
    round-fires (test_calendar noon) two_tasks late_task (soon_task ∷ []) (pos 61) refl refl refl
      (unfold earliest in omega arith) all_quiet
  where
    all_quiet :
        (u : ScheduledTask)
        → IsTask u (late_task ∷ soon_task ∷ [])
        → next_fire (test_calendar noon) u.cron (pos 61 +ℤ one_second) ≢ out_of_range
    all_quiet u (inl e) = quiet_at _ u _ refl e
    all_quiet u (inr (inl e)) = quiet_at _ u _ refl e
    all_quiet u (inr (inr e)) = elim e [ ]

abbrev waiting_soon : Scheduler
waiting_soon = record two_tasks { phase = waiting soon_task }

cancel-fires_example :
    let s =
      run_events (test_calendar noon) (cancel (codes "soon") ∷ wake (pos 61) ∷ []) waiting_soon in
    (s.fired ≡ waiting_soon.fired ++ (soon_task, pos 61) ∷ [])
    × (find_task (codes "soon") s.tasks ≡ none)
cancel-fires_example =
    cancel-fires (test_calendar noon) waiting_soon soon_task (pos 61) refl refl (omega arith)

run_events-AllDue_example :
    AllDue (run_events (test_calendar noon) (choose ∷ wake (pos 61) ∷ []) two_tasks).fired
run_events-AllDue_example =
    run_events-AllDue (test_calendar noon) (choose ∷ wake (pos 61) ∷ []) two_tasks tt

earliest-AllLater_example :
    IsTask (earliest late_task (soon_task ∷ [])) (late_task ∷ (soon_task ∷ []))
    × AllLater (earliest late_task (soon_task ∷ [])) (late_task ∷ (soon_task ∷ []))
earliest-AllLater_example = earliest-AllLater late_task (soon_task ∷ [])
