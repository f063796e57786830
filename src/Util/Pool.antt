-- ===== src/Util/Pool.antt =====
-- `ThreadPool` of src/core/util/thread_pool.hpp and thread_pool.cpp as a state machine: the calls of
-- `submit`, the workers' steps between their locks, and the destructor's flag. A job's function is a
-- number. The heap is a list; a job's number has 64 bits.
pub mod Order
use vaulkeeper.Prelude.{
  Bool, List, [], false, if◌then◌else◌, ltb, not, true, ℕ, ◌%◌, ◌++◌, ◌+◌, ◌-◌, ◌==◌, ◌^◌, ◌∷◌,
}

pub record Job : Type 0 where
  pub priority : ℕ
  pub sequence : ℕ
  pub fn : ℕ

-- `taken` keeps account of the jobs that workers took, in order.
pub record ThreadPool : Type 0 where
  pub queue : List Job
  pub stop_flag : Bool
  pub active_workers : ℕ
  pub next_sequence : ℕ
  pub taken : List Job

-- `Job::operator<`: the other one goes first.
unfoldable pub job_below : Job → Job → Bool
job_below a b =
    if not (a.priority == b.priority) then ltb b.priority a.priority else ltb b.sequence a.sequence

-- `queue.top()`, and the rest behind `queue.pop()`.
unfoldable pub pop_top : Job → List Job → Job × List Job
unfolding job_below
pop_top best [] = (best, [])
pop_top best (j ∷ js) =
    let with_next = pop_top j js in
    let with_best = pop_top best js in
    if job_below best j then (with_next.0, best ∷ with_next.1) else (with_best.0, j ∷ with_best.1)

pub data PoolEvent : Type 0 where
  submit_job : ℕ → ℕ → PoolEvent
  take_job : PoolEvent
  finish_job : PoolEvent
  stop_pool : PoolEvent

abbrev pub fresh_pool : ThreadPool
fresh_pool = record {
  queue = [];
  stop_flag = false;
  active_workers = 0;
  next_sequence = 0;
  taken = [];
}

abbrev pub take_popped : Job × List Job → ThreadPool → ThreadPool
take_popped (top, rest) p = record p {
  queue = rest;
  active_workers = p.active_workers + 1;
  taken = p.taken ++ top ∷ [];
}

-- A worker behind its wait. With no job it waits on, or has returned if the pool is stopped.
abbrev pub take_from : List Job → ThreadPool → ThreadPool
take_from [] p = p
take_from (j ∷ js) p = take_popped (pop_top j js) p

unfoldable pub pool_step : PoolEvent → ThreadPool → ThreadPool
unfolding pop_top
pool_step (submit_job fn priority) p = record p {
  queue = p.queue ++ record { priority = priority; sequence = p.next_sequence; fn = fn } ∷ [];
  next_sequence = (p.next_sequence + 1) % 2 ^ 64;
}
pool_step take_job p = take_from p.queue p
pool_step finish_job p = record p { active_workers = p.active_workers - 1 }
pool_step stop_pool p = record p { stop_flag = true }

unfoldable pub run_pool : List PoolEvent → ThreadPool → ThreadPool
unfolding pool_step
run_pool [] p = p
run_pool (e ∷ es) p = run_pool es (pool_step e p)
