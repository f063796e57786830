-- ===== src/Util/Tests.antt =====
-- Runs of the interner of util/string_intern.cpp.
use vaulkeeper.Prelude.{List, [], arith, length, map, refl, replicate, ℕ, ◌↔◌, ◌∷◌, ◌≡◌}
use vaulkeeper.Prelude.Bytes.{codes}
use vaulkeeper.Util.Interner.{StringInterner, fresh_interner, intern, interned_count, view}
use vaulkeeper.Util.Interner.Handles.{
  fresh_interner-IsIndexed, intern-same_iff, intern_all, view-intern,
}
use vaulkeeper.Util.Pool.{
  PoolEvent, fresh_pool, job_below, pool_step, pop_top, run_pool, stop_pool, submit_job, take_job,
}
use vaulkeeper.Util.Pool.Order.{count_of, given, run_pool-AllTaken}

-- An interner that holds two names.
abbrev two_names : StringInterner
two_names = (intern (codes "temp") (intern (codes "logs") fresh_interner).1).1

view-intern_example :
    let st = intern_all (codes "logs" ∷ []) fresh_interner in
    view
      (intern_all (codes "logs" ∷ codes "x" ∷ []) (intern (codes "temp") st).1)
      (intern (codes "temp") st).0
    ≡ codes "temp"
view-intern_example =
    view-intern (codes "logs" ∷ []) (codes "temp") (codes "logs" ∷ codes "x" ∷ []) (omega arith)

intern-same_iff_example :
    ((intern (codes "logs") fresh_interner).0
      ≡ (intern (codes "temp") (intern (codes "logs") fresh_interner).1).0)
    ↔ (codes "logs" ≡ codes "temp")
intern-same_iff_example =
    intern-same_iff (codes "logs") (codes "temp") fresh_interner fresh_interner-IsIndexed
      (omega arith)

counted : interned_count two_names ≡ 2
unfolding interned_count intern
counted = refl

again : (intern (codes "logs") two_names).0 ≡ 1
unfolding intern
again = refl

-- Two jobs, the second of which goes first.
abbrev two_jobs : List PoolEvent
two_jobs = submit_job 1 2 ∷ submit_job 2 0 ∷ stop_pool ∷ []

run_pool-AllTaken_example :
    let p = run_pool two_jobs fresh_pool in
    let q = run_pool (replicate (length p.queue) take_job) p in
    (q.queue ≡ []) × ((n : ℕ) → count_of n q.taken ≡ given n 2)
run_pool-AllTaken_example = run_pool-AllTaken two_jobs (omega arith)

in_order :
    map (λ j. j.fn) (run_pool (take_job ∷ take_job ∷ []) (run_pool two_jobs fresh_pool)).taken
    ≡ 2 ∷ 1 ∷ []
unfolding run_pool pool_step pop_top job_below
in_order = refl
