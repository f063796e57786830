-- ===== src/Scheduler/Loop/Order.antt =====
-- Which task the thread takes.
use vaulkeeper.Prelude.{
  Bool, List, [], arith, false, if◌then◌else◌, inl, inr, ltb-false, ltb→lt, refl, true, ◌∷◌, ◌≡◌,
  ◌⊎◌,
}
use vaulkeeper.Prelude.Int.{ltb_ℤ, ◌≤ℤ◌}
use vaulkeeper.Scheduler.Loop.{ScheduledTask, earliest}

-- The elements of a list.
abbrev pub IsTask : ScheduledTask → List ScheduledTask → Type 0
IsTask t [] = ⊥
IsTask t (u ∷ us) = (t ≡ u) ⊎ IsTask t us

abbrev pub AllLater : ScheduledTask → List ScheduledTask → Type 0
AllLater t [] = Unit
AllLater t (u ∷ us) = (t.next_run ≤ℤ u.next_run) × AllLater t us

AllLater-trans :
    (t u : ScheduledTask) (us : List ScheduledTask)
    → t.next_run ≤ℤ u.next_run
    → AllLater u us
    → AllLater t us
AllLater-trans t u [] h a = tt
AllLater-trans t u (v ∷ us) h a = (omega (arith, a.0), AllLater-trans t u us h a.1)

-- The task that is taken is one of the tasks, and none is due before it.
pub earliest-AllLater :
    (t : ScheduledTask) (ts : List ScheduledTask)
    → IsTask (earliest t ts) (t ∷ ts) × AllLater (earliest t ts) (t ∷ ts)
unfolding earliest
earliest-AllLater t [] = (inl refl, (omega arith, tt))
earliest-AllLater t (u ∷ ts) =
    sooner (ltb_ℤ u.next_run t.next_run) refl (earliest-AllLater u ts) (earliest-AllLater t ts)
  where
    skip_second : (e : ScheduledTask) → IsTask e (t ∷ ts) → IsTask e (t ∷ (u ∷ ts))
    skip_second e (inl same) = inl same
    skip_second e (inr later) = inr (inr later)

    sooner :
        (b : Bool)
        → ltb_ℤ u.next_run t.next_run ≡ b
        → IsTask (earliest u ts) (u ∷ ts) × AllLater (earliest u ts) (u ∷ ts)
        → IsTask (earliest t ts) (t ∷ ts) × AllLater (earliest t ts) (t ∷ ts)
        → let e = if b then earliest u ts else earliest t ts in
          IsTask e (t ∷ (u ∷ ts)) × AllLater e (t ∷ (u ∷ ts))
    sooner true e h k = (inr h.0, (omega (arith, h.1.0, ltb→lt _ _ e), h.1))
    sooner false e h k =
        (skip_second (earliest t ts) k.0, (k.1.0, (omega (arith, k.1.0, ltb-false _ _ e), k.1.1)))
