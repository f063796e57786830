-- ===== src/Scheduler/Loop/Rounds.antt =====
-- What comes of the rounds of the thread.
use mathlib.Core.Option.{none-ne-some, some-injective}
use mathlib.Core.Path.{subst}
use vaulkeeper.Prelude.{
  Bool, Bool-cases, List, Option, [], arith, false, if◌then◌else◌, inl, inr, ltb-false, none, not,
  refl, some, sym, true, ℕ, ◌++◌, ◌∷◌, ◌≡◌, ◌≢◌, ◌⊎◌,
}
use vaulkeeper.Prelude.Bytes.{Bytes, bytes_eq}
use vaulkeeper.Prelude.Int.{ltb_ℤ, ℤ, ◌+ℤ◌, ◌≤ℤ◌}
use vaulkeeper.Scheduler.Cron.{
  Calendar, CronExpression, Search, fires, never, next_fire, out_of_range,
}
use vaulkeeper.Scheduler.Loop.{
  Event, Phase, ScheduledTask, Scheduler, acted, acting, add_task, cancel, choose, choose_at,
  choose_task, choosing, earliest, find_task, finish, finish_at, next_or_day, remove_tasks,
  reschedule, returned, run_events, schedule, step, stop, terminated, waiting, wake, wake_at,
  wake_up,
}
use vaulkeeper.Scheduler.Loop.Order.{IsTask}
use vaulkeeper.Util.Time.{one_second}

-- What the thread has fired was due then.
abbrev pub AllDue : List (ScheduledTask × ℤ) → Type 0
AllDue [] = Unit
AllDue ((t, now) ∷ fs) = (t.next_run ≤ℤ now) × AllDue fs

AllDue-append :
    (fs : List (ScheduledTask × ℤ)) (t : ScheduledTask) (now : ℤ)
    → AllDue fs
    → t.next_run ≤ℤ now
    → AllDue (fs ++ (t, now) ∷ [])
AllDue-append [] t now a h = (h, tt)
AllDue-append ((u, at_u) ∷ fs) t now a h = (a.0, AllDue-append fs t now a.1 h)

not_before : (a b : ℤ) → b ≤ℤ a → ltb_ℤ a b ≡ false
not_before a b h = ground arith

find_task-remove_tasks :
    (task_id : Bytes) (ts : List ScheduledTask) → find_task task_id (remove_tasks task_id ts) ≡ none
unfolding find_task remove_tasks
find_task-remove_tasks task_id [] = refl
find_task-remove_tasks task_id (t ∷ ts) = elim (Bool-cases (bytes_eq t.id task_id)) [
  | inl e ↦ rw e (find_task-remove_tasks task_id ts)
  | inr e ↦ rw e (rw e (find_task-remove_tasks task_id ts))
]

find_task-IsTask :
    (task_id : Bytes) (ts : List ScheduledTask) (u : ScheduledTask)
    → find_task task_id ts ≡ some u
    → IsTask u ts
unfolding find_task
find_task-IsTask task_id [] u h = absurd (none-ne-some u h)
find_task-IsTask task_id (t ∷ ts) u h =
    found_first (bytes_eq t.id task_id) (λ k. find_task-IsTask task_id ts u k) h
  where
    found_first :
        (b : Bool)
        → (find_task task_id ts ≡ some u → IsTask u ts)
        → (if b then some t else find_task task_id ts) ≡ some u
        → (u ≡ t) ⊎ IsTask u ts
    found_first true rest k = inl (sym (some-injective t u k))
    found_first false rest k = inr (rest k)

module _ (calendar : Calendar) where
  add_task-fired :
      (task_id : Bytes) (expr : CronExpression) (action : ℕ) (o : Option ℤ) (s : Scheduler)
      → (add_task task_id expr action o s).fired ≡ s.fired
  add_task-fired task_id expr action none s = refl
  add_task-fired task_id expr action (some next) s = refl

  choose_task-fired : (ts : List ScheduledTask) (s : Scheduler) → (choose_task ts s).fired ≡ s.fired
  choose_task-fired [] s = refl
  choose_task-fired (t ∷ ts) s = refl

  choose_at-fired : (p : Phase) (s : Scheduler) → (choose_at calendar p s).fired ≡ s.fired
  choose_at-fired choosing s = either s.running
    where
      either :
          (b : Bool)
          → (if b then choose_task s.tasks s else record s { phase = returned }).fired ≡ s.fired
      either true = choose_task-fired s.tasks s
      either false = refl
  choose_at-fired (waiting t) s = refl
  choose_at-fired (acting t now) s = refl
  choose_at-fired returned s = refl
  choose_at-fired terminated s = refl

  reschedule-fired :
      (task_id : Bytes) (o : Option ℤ) (s : Scheduler) → (reschedule task_id o s).fired ≡ s.fired
  reschedule-fired task_id none s = refl
  reschedule-fired task_id (some next) s = refl

  finish_at-fired : (p : Phase) (s : Scheduler) → (finish_at calendar p s).fired ≡ s.fired
  finish_at-fired (acting t now) s = looked_up (find_task t.id s.tasks)
    where
      looked_up : (o : Option ScheduledTask) → (acted calendar t now o s).fired ≡ s.fired
      looked_up none = refl
      looked_up (some u) =
          reschedule-fired t.id (next_or_day now (next_fire calendar u.cron (now +ℤ one_second))) s
  finish_at-fired choosing s = refl
  finish_at-fired (waiting t) s = refl
  finish_at-fired returned s = refl
  finish_at-fired terminated s = refl

  wake_up-AllDue :
      (t : ScheduledTask) (now : ℤ) (s : Scheduler)
      → AllDue s.fired
      → AllDue (wake_up t now s).fired
  wake_up-AllDue t now s a = stopped s.running
    where
      timed :
          (b : Bool)
          → ltb_ℤ now t.next_run ≡ b
          → AllDue
              (if b
                then record s { phase = choosing }
                else record s { phase = acting t now; fired = s.fired ++ (t, now) ∷ [] }).fired
      timed true e = a
      timed false e = AllDue-append s.fired t now a (omega (arith, ltb-false _ _ e))

      stopped :
          (b : Bool)
          → AllDue
              (if not b
                then record s { phase = returned }
                else if ltb_ℤ now t.next_run
                then record s { phase = choosing }
                else record s { phase = acting t now; fired = s.fired ++ (t, now) ∷ [] }).fired
      stopped true = timed (ltb_ℤ now t.next_run) refl
      stopped false = a

  wake_at-AllDue :
      (p : Phase) (now : ℤ) (s : Scheduler)
      → AllDue s.fired
      → AllDue (wake_at calendar p now s).fired
  wake_at-AllDue (waiting t) now s a = wake_up-AllDue t now s a
  wake_at-AllDue choosing now s a = a
  wake_at-AllDue (acting t at_t) now s a = a
  wake_at-AllDue returned now s a = a
  wake_at-AllDue terminated now s a = a

  step-AllDue : (e : Event) (s : Scheduler) → AllDue s.fired → AllDue (step calendar e s).fired
  unfolding step
  step-AllDue (schedule task_id expr action now now') s a =
      subst AllDue
        (sym
          (add_task-fired task_id expr action (next_or_day now' (next_fire calendar expr now)) s))
        a
  step-AllDue (cancel task_id) s a = a
  step-AllDue stop s a = a
  step-AllDue choose s a = subst AllDue (sym (choose_at-fired s.phase s)) a
  step-AllDue (wake now) s a = wake_at-AllDue s.phase now s a
  step-AllDue finish s a = subst AllDue (sym (finish_at-fired s.phase s)) a

  -- Whatever calls come in between, and whatever the clock shows, no action is called before the time
  -- that its task had when the thread took it.
  pub run_events-AllDue :
      (es : List Event) (s : Scheduler) → AllDue s.fired → AllDue (run_events calendar es s).fired
  unfolding run_events
  run_events-AllDue [] s a = a
  run_events-AllDue (e ∷ es) s a = run_events-AllDue es (step calendar e s) (step-AllDue e s a)

  -- A task that is cancelled while the thread waits for it is called all the same once its time has
  -- come, though the task is gone.
  pub cancel-fires :
      (s : Scheduler) (t : ScheduledTask) (now : ℤ)
      → s.running ≡ true
      → s.phase ≡ waiting t
      → t.next_run ≤ℤ now
      → let s' = run_events calendar (cancel t.id ∷ wake now ∷ []) s in
        (s'.fired ≡ s.fired ++ (t, now) ∷ []) × (find_task t.id s'.tasks ≡ none)
  unfolding run_events step
  cancel-fires s t now r p h =
      rw (p, r, not_before now t.next_run h) (refl, find_task-remove_tasks t.id s.tasks)

  acted_lem :
      (t : ScheduledTask) (now : ℤ) (o : Option ScheduledTask) (s : Scheduler)
      → ((u : ScheduledTask)
          → o ≡ some u
          → next_fire calendar u.cron (now +ℤ one_second) ≢ out_of_range)
      → ((acted calendar t now o s).fired ≡ s.fired) × ((acted calendar t now o s).phase ≡ choosing)
  acted_lem t now none s safe = (refl, refl)
  acted_lem t now (some u) s safe = searched _ (safe u refl)
    where
      searched :
          (r : Search)
          → r ≢ out_of_range
          → ((reschedule t.id (next_or_day now r) s).fired ≡ s.fired)
            × ((reschedule t.id (next_or_day now r) s).phase ≡ choosing)
      searched (fires z) h = (refl, refl)
      searched never h = (refl, refl)
      searched out_of_range h = absurd (h refl)

  -- A thread that has tasks and is not stopped calls the earliest of them once it is woken at its
  -- time, and is then back at the top of its loop, if `nextFire`
  -- does not throw for its tasks.
  pub round-fires :
      (s : Scheduler) (t : ScheduledTask) (ts : List ScheduledTask) (now : ℤ)
      → s.running ≡ true
      → s.phase ≡ choosing
      → s.tasks ≡ t ∷ ts
      → (earliest t ts).next_run ≤ℤ now
      → ((u : ScheduledTask)
          → IsTask u (t ∷ ts)
          → next_fire calendar u.cron (now +ℤ one_second) ≢ out_of_range)
      → let s' = run_events calendar (choose ∷ wake now ∷ finish ∷ []) s in
        (s'.fired ≡ s.fired ++ (earliest t ts, now) ∷ []) × (s'.phase ≡ choosing)
  unfolding run_events step
  round-fires s t ts now r p q h safe =
      rw (p, r, q, choose_task, wake_at, not_before now (earliest t ts).next_run h)
        (acted_lem (earliest t ts) now (find_task (earliest t ts).id (t ∷ ts)) _
          (λ u f. safe u (find_task-IsTask (earliest t ts).id (t ∷ ts) u f)))
