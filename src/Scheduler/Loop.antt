-- ===== src/Scheduler/Loop.antt =====
-- class `Scheduler` of src/core/scheduler/scheduler.cpp as a state machine: the calls of `schedule`,
-- `cancel` and `stop`, and the thread's `loop`, cut where it gives up the lock. An action is a number.
pub mod Rounds
pub mod Order
use vaulkeeper.Prelude.{
  Bool, List, Option, [], false, if◌then◌else◌, none, not, some, true, ℕ, ◌++◌, ◌∷◌,
}
use vaulkeeper.Prelude.Bytes.{Bytes, bytes_eq}
use vaulkeeper.Prelude.Int.{ltb_ℤ, pos, ℤ, ◌*ℤ◌, ◌+ℤ◌}
use vaulkeeper.Scheduler.Cron.{
  Calendar, CronExpression, Search, fires, never, next_fire, out_of_range,
}
use vaulkeeper.Util.Time.{hour, one_second}

pub record ScheduledTask : Type 0 where
  pub id : Bytes
  pub cron : CronExpression
  pub action : ℕ
  pub next_run : ℤ

-- Where the thread stands: at the top of its loop, in `wait_until` with what it copied from a task, in
-- the action that it calls, at its end, or ended by an exception.
pub data Phase : Type 0 where
  choosing : Phase
  waiting : ScheduledTask → Phase
  acting : ScheduledTask → ℤ → Phase
  returned : Phase
  terminated : Phase

-- `fired` keeps account of the actions called, and when.
pub record Scheduler : Type 0 where
  pub tasks : List ScheduledTask
  pub running : Bool
  pub phase : Phase
  pub fired : List (ScheduledTask × ℤ)

-- What happens, with what the clock then shows. `schedule` reads it twice.
pub data Event : Type 0 where
  schedule : Bytes → CronExpression → ℕ → ℤ → ℤ → Event
  cancel : Bytes → Event
  stop : Event
  choose : Event
  wake : ℤ → Event
  finish : Event

-- `std::min_element` by `nextRun`: the first of the least.
unfoldable pub earliest : ScheduledTask → List ScheduledTask → ScheduledTask
earliest best [] = best
earliest best (t ∷ ts) =
    let sooner = earliest t ts in
    let kept = earliest best ts in if ltb_ℤ t.next_run best.next_run then sooner else kept

-- `std::remove_if` and `erase`.
unfoldable pub remove_tasks : Bytes → List ScheduledTask → List ScheduledTask
unfolding bytes_eq
remove_tasks task_id [] = []
remove_tasks task_id (t ∷ ts) =
    let rest = remove_tasks task_id ts in if bytes_eq t.id task_id then rest else t ∷ rest

-- `std::find_if`, and the change of what it finds.
unfoldable pub find_task : Bytes → List ScheduledTask → Option ScheduledTask
unfolding bytes_eq
find_task task_id [] = none
find_task task_id (t ∷ ts) =
    let rest = find_task task_id ts in if bytes_eq t.id task_id then some t else rest

unfoldable pub set_next_run : Bytes → ℤ → List ScheduledTask → List ScheduledTask
unfolding bytes_eq
set_next_run task_id next [] = []
set_next_run task_id next (t ∷ ts) =
    let rest = set_next_run task_id next ts in
    if bytes_eq t.id task_id then record t { next_run = next } ∷ ts else t ∷ rest

-- `next.value_or(now + std::chrono::hours { 24 })`, where `nextFire` has not thrown.
abbrev pub next_or_day : ℤ → Search → Option ℤ
next_or_day now (fires at) = some at
next_or_day now never = some (now +ℤ (pos 24 *ℤ hour))
next_or_day now out_of_range = none

-- An exception leaves `schedule` before the task is added.
abbrev pub add_task : Bytes → CronExpression → ℕ → Option ℤ → Scheduler → Scheduler
add_task task_id expr action none s = s
add_task task_id expr action (some next) s = record s {
  tasks = s.tasks ++ record { id = task_id; cron = expr; action = action; next_run = next } ∷ [];
}

-- The top of the loop. With no task it waits and comes back.
abbrev pub choose_task : List ScheduledTask → Scheduler → Scheduler
choose_task [] s = s
choose_task (t ∷ ts) s = record s { phase = waiting (earliest t ts) }

-- Behind `wait_until`, which comes back at its time or when the scheduler has been stopped.
abbrev pub wake_up : ScheduledTask → ℤ → Scheduler → Scheduler
wake_up t now s =
    if not s.running
    then record s { phase = returned }
    else if ltb_ℤ now t.next_run
    then record s { phase = choosing }
    else record s { phase = acting t now; fired = s.fired ++ (t, now) ∷ [] }

-- An exception of `nextFire` leaves the thread.
abbrev pub reschedule : Bytes → Option ℤ → Scheduler → Scheduler
reschedule task_id none s = record s { phase = terminated }
reschedule task_id (some next) s = record s {
  tasks = set_next_run task_id next s.tasks;
  phase = choosing;
}

module _ (calendar : Calendar) where
  -- Behind the action: the task is looked up again.
  abbrev pub acted : ScheduledTask → ℤ → Option ScheduledTask → Scheduler → Scheduler
  acted t now none s = record s { phase = choosing }
  acted t now (some found_task) s =
      reschedule t.id (next_or_day now (next_fire calendar found_task.cron (now +ℤ one_second))) s

  -- The thread's part, where it stands: other events of the thread do not happen there.
  abbrev pub choose_at : Phase → Scheduler → Scheduler
  choose_at choosing s = if s.running then choose_task s.tasks s else record s { phase = returned }
  choose_at _ s = s

  abbrev pub wake_at : Phase → ℤ → Scheduler → Scheduler
  wake_at (waiting t) now s = wake_up t now s
  wake_at _ now s = s

  abbrev pub finish_at : Phase → Scheduler → Scheduler
  finish_at (acting t now) s = acted t now (find_task t.id s.tasks) s
  finish_at _ s = s

  unfoldable pub step : Event → Scheduler → Scheduler
  unfolding earliest remove_tasks find_task set_next_run next_fire ◌+ℤ◌ ◌*ℤ◌
  step (schedule task_id expr action now now') s =
      add_task task_id expr action (next_or_day now' (next_fire calendar expr now)) s
  step (cancel task_id) s = record s { tasks = remove_tasks task_id s.tasks }
  step stop s = record s { running = false }
  step choose s = choose_at s.phase s
  step (wake now) s = wake_at s.phase now s
  step finish s = finish_at s.phase s

  unfoldable pub run_events : List Event → Scheduler → Scheduler
  unfolding step
  run_events [] s = s
  run_events (e ∷ es) s = run_events es (step e s)

-- `start` on a scheduler that does not run.
abbrev pub started : Scheduler
started = record { tasks = []; running = true; phase = choosing; fired = [] }
