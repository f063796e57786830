-- ===== src/Util/Pool/Order.antt =====
-- Every job that is submitted is taken once, after as many steps of the workers as there are jobs.
use vaulkeeper.Prelude.{
  List, [], ap, arith, if-cases, if◌then◌else◌, length, ltb, refl, replicate, suc, zero, ℕ, ◌%◌,
  ◌++◌, ◌+◌, ◌<◌, ◌==◌, ◌^◌, ◌∙◌, ◌∷◌, ◌≡◌,
}
use vaulkeeper.Util.Pool.{
  Job, PoolEvent, ThreadPool, finish_job, fresh_pool, job_below, pool_step, pop_top, run_pool,
  stop_pool, submit_job, take_from, take_job,
}

-- How many jobs of a list have a number.
abbrev pub count_of : ℕ → List Job → ℕ
count_of n [] = 0
count_of n (j ∷ js) = (if j.sequence == n then 1 else 0) + count_of n js

count_of-append : (n : ℕ) (xs ys : List Job) → count_of n (xs ++ ys) ≡ count_of n xs + count_of n ys
count_of-append n [] ys = omega arith
count_of-append n (x ∷ xs) ys = omega (arith, count_of-append n xs ys)

pop_top-count_of :
    (n : ℕ) (best : Job) (js : List Job)
    → count_of n ((pop_top best js).0 ∷ (pop_top best js).1) ≡ count_of n (best ∷ js)
unfolding pop_top
pop_top-count_of n best [] = refl
pop_top-count_of n best (j ∷ js) =
    if-cases (λ (r : Job × List Job). count_of n (r.0 ∷ r.1) ≡ count_of n (best ∷ (j ∷ js)))
      (job_below best j) (λ e. omega (arith, pop_top-count_of n j js))
      (λ e. omega (arith, pop_top-count_of n best js))

-- Whether a number was given to a job, as 1 or 0.
abbrev pub given : ℕ → ℕ → ℕ
given n next = if ltb n next then 1 else 0

-- Each number below the next one is that of one job, taken or in the queue, and no other is.
abbrev pub IsCounted : ThreadPool → Type 0
IsCounted p = (n : ℕ) → count_of n p.taken + count_of n p.queue ≡ given n p.next_sequence

take_from-IsCounted :
    (js : List Job) (p : ThreadPool) → p.queue ≡ js → IsCounted p → IsCounted (take_from js p)
take_from-IsCounted [] p e h = h
take_from-IsCounted (j ∷ js) p e h = λ n. omega (
  arith,
  h n,
  ap (count_of n) e,
  pop_top-count_of n j js,
  count_of-append n p.taken ((pop_top j js).0 ∷ []),
)

one_more : (n next : ℕ) → (if next == n then 1 else 0) + given n next ≡ given n (next + 1)
one_more n next = ground arith

-- How many jobs were submitted.
abbrev submitted_by : PoolEvent → ℕ
submitted_by (submit_job fn priority) = 1
submitted_by take_job = 0
submitted_by finish_job = 0
submitted_by stop_pool = 0

abbrev pub submitted : List PoolEvent → ℕ
submitted [] = 0
submitted (e ∷ es) = submitted_by e + submitted es

-- The number of the next job, as far as it does not wrap.
abbrev Follows : ℕ → ThreadPool → ThreadPool → Type 0
Follows n p q = IsCounted q × (q.next_sequence ≡ p.next_sequence + n)

pool_step-Follows :
    (e : PoolEvent) (p : ThreadPool)
    → IsCounted p
    → p.next_sequence + submitted_by e < 2 ^ 64
    → Follows (submitted_by e) p (pool_step e p)
unfolding pool_step
pool_step-Follows (submit_job fn priority) p h room =
    let next : (p.next_sequence + 1) % 2 ^ 64 ≡ p.next_sequence + 1 = omega arith in
    (
      λ n. omega (
        arith,
        h n,
        one_more n p.next_sequence,
        ap (given n) next,
        count_of-append n p.queue
            (record { priority = priority; sequence = p.next_sequence; fn = fn } ∷ []),
      ),
      next,
    )
pool_step-Follows take_job p h room =
    (take_from-IsCounted p.queue p refl h, kept p.queue ∙ omega arith)
  where
    kept : (js : List Job) → (take_from js p).next_sequence ≡ p.next_sequence
    kept [] = refl
    kept (j ∷ js) = refl
pool_step-Follows finish_job p h room = (h, omega arith)
pool_step-Follows stop_pool p h room = (h, omega arith)

run_pool-Follows :
    (es : List PoolEvent) (p : ThreadPool)
    → IsCounted p
    → p.next_sequence + submitted es < 2 ^ 64
    → Follows (submitted es) p (run_pool es p)
unfolding run_pool
run_pool-Follows [] p h room = (h, omega arith)
run_pool-Follows (e ∷ es) p h room =
    let one = pool_step-Follows e p h (omega arith) in
    let more = run_pool-Follows es (pool_step e p) one.0 (omega (arith, one.1)) in
    (more.0, omega (arith, one.1, more.1))

submitted-replicate : (k : ℕ) → submitted (replicate k take_job) ≡ 0
submitted-replicate zero = refl
submitted-replicate (suc k) = omega (arith, submitted-replicate k)

length-pop_top : (best : Job) (js : List Job) → length (pop_top best js).1 ≡ length js
unfolding pop_top
length-pop_top best [] = refl
length-pop_top best (j ∷ js) =
    if-cases (λ (r : Job × List Job). length r.1 ≡ suc (length js)) (job_below best j)
      (λ e. ap suc (length-pop_top j js)) (λ e. ap suc (length-pop_top best js))

-- As many steps as there are jobs leave none.
drained :
    (k : ℕ) (p : ThreadPool) → length p.queue ≡ k → (run_pool (replicate k take_job) p).queue ≡ []
unfolding run_pool pool_step
drained zero p e = nothing p.queue e
  where
    nothing : (js : List Job) → length js ≡ 0 → js ≡ []
    nothing [] h = refl
    nothing (j ∷ js) h = absurd (omega arith)
drained (suc k) p e = drained k (take_from p.queue p) (shorter p.queue e)
  where
    shorter : (js : List Job) → length js ≡ suc k → length (take_from js p).queue ≡ k
    shorter [] h = absurd (omega arith)
    shorter (j ∷ js) h = omega (arith, h, length-pop_top j js)

-- Whatever was submitted, taken, finished and stopped in any order, less than 2 ^ 64 jobs in all: as
-- many more steps of the workers as there are jobs in the queue empty it, and then the numbers from 0
-- up to that of the jobs submitted have each been taken exactly once, and no other.
pub run_pool-AllTaken :
    (es : List PoolEvent)
    → submitted es < 2 ^ 64
    → let p = run_pool es fresh_pool in
      let q = run_pool (replicate (length p.queue) take_job) p in
      (q.queue ≡ []) × ((n : ℕ) → count_of n q.taken ≡ given n (submitted es))
run_pool-AllTaken es room =
    let p = run_pool es fresh_pool in
    let k = length p.queue in
    let empty = drained k p refl in
    let before = run_pool-Follows es fresh_pool (λ n. ground arith) (omega arith) in
    let after =
      run_pool-Follows (replicate k take_job) p before.0
        (omega (arith, before.1, submitted-replicate k)) in
    let q = run_pool (replicate k take_job) p in
    let next : q.next_sequence ≡ submitted es =
      omega (arith, after.1, submitted-replicate k, before.1) in
    (empty, λ n. omega (arith, after.0 n, ap (count_of n) empty, ap (given n) next))
