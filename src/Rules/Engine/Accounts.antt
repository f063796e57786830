-- ===== src/Rules/Engine/Accounts.antt =====
-- What the report of an executed rule says, and what was done.
use mathlib.Core.List.{append-nil, append_assoc}
use vaulkeeper.Fs.{FileSystem}
use vaulkeeper.Prelude.{
  Bool, List, Option, [], ap, arith, false, if-cases, inl, inr, length, none, not, refl, some, suc,
  sym, ℕ, ◌%◌, ◌&&◌, ◌++◌, ◌+◌, ◌^◌, ◌∙◌, ◌∷◌, ◌≡◌, ◌⊎◌,
}
use vaulkeeper.Prelude.Bytes.{Bytes}
use vaulkeeper.Prelude.Int.{ℤ}
use vaulkeeper.Quarantine.Index.{QuarantineItem}
use vaulkeeper.Quarantine.Store.{Outcome, Quarantine, capture}
use vaulkeeper.Rules.{Rule}
use vaulkeeper.Rules.Engine.{
  Acting, FoundFile, RuleEvaluation, RuleExecutionReport, RuleJournalEntry, act_measured, act_on,
  add_acted, add_error, after_capture, capture_of, evaluate, execute, fresh_report,
  is_quarantine_action,
}
use vaulkeeper.Util.Error.{Result, err, ok}

-- The sizes of the files that can be measured.
abbrev pub known_size : Option ℕ → List ℕ → List ℕ
known_size none sizes = sizes
known_size (some n) sizes = n ∷ sizes

abbrev pub sum : List ℕ → ℕ
sum [] = 0
sum (n ∷ ns) = n + sum ns

-- The second and the third list share out the members of the first between them, in their order.
abbrev pub Splits : List Bytes → List Bytes → List Bytes → Type 0
Splits [] acted errors = (acted ≡ []) × (errors ≡ [])
Splits (path ∷ paths) acted errors =
    ((rest : List Bytes) × (acted ≡ path ∷ rest) × Splits paths rest errors)
    ⊎ ((rest : List Bytes) × (errors ≡ path ∷ rest) × Splits paths acted rest)

-- The files that were acted on are as many as are counted; the others are the errors.
abbrev pub Accounts : List Bytes → Result RuleExecutionReport → Type 0
Accounts paths (err e) = ⊥
Accounts paths (ok r) =
    (acted : List Bytes) × Splits paths acted r.errors
    × (r.acted_count % 2 ^ 64 ≡ length acted % 2 ^ 64)

-- What one path adds to a report.
abbrev Added : Bytes → RuleExecutionReport → RuleExecutionReport → Type 0
Added path r r' =
    ((r'.errors ≡ r.errors) × (r'.acted_count ≡ (r.acted_count + 1) % 2 ^ 64))
    ⊎ ((r'.errors ≡ r.errors ++ path ∷ []) × (r'.acted_count ≡ r.acted_count))

-- What the paths of a loop add to a report.
abbrev AddedAll : List Bytes → RuleExecutionReport → RuleExecutionReport → Type 0
AddedAll paths r r' =
    (acted : List Bytes) × (errors : List Bytes) × Splits paths acted errors
    × (r'.errors ≡ r.errors ++ errors)
    × (r'.acted_count % 2 ^ 64 ≡ (r.acted_count + length acted) % 2 ^ 64)

Added-AddedAll :
    (path : Bytes) (paths : List Bytes) (r r' r'' : RuleExecutionReport)
    → Added path r r'
    → AddedAll paths r' r''
    → AddedAll (path ∷ paths) r r''
Added-AddedAll path paths r r' r'' (inl (e, n)) (acted, errors, split, e', n') = (
  path ∷ acted,
  errors,
  inl (acted, refl, split),
  e' ∙ ap (λ xs. xs ++ errors) e,
  omega (arith, n, n'),
)
Added-AddedAll path paths r r' r'' (inr (e, n)) (acted, errors, split, e', n') = (
  acted,
  path ∷ errors,
  inr (errors, refl, split),
  e' ∙ ap (λ xs. xs ++ errors) e ∙ append_assoc r.errors (path ∷ []) errors,
  omega (arith, n, n'),
)

module _ {Disk : Type 0} (fs : FileSystem Disk) (measured : Bytes → Disk → Option ℕ)
    (draw : ℕ → Bytes × (ℤ × ℤ)) (has_quarantine has_journal : Bool) where
  after_capture-Added :
      (path : Bytes) (size : ℕ) (r : RuleExecutionReport) (o : Outcome Disk QuarantineItem)
      → Added path r
          (after_capture fs measured draw has_quarantine has_journal path size r o).report
  after_capture-Added path size r (ok item, (q, disk)) = inl (refl, refl)
  after_capture-Added path size r (err e, (q, disk)) = inr (refl, refl)

  act_measured-Added :
      (rule : Rule) (dry_run : Bool) (i : ℕ) (path : Bytes) (a : Acting Disk) (size : Option ℕ)
      → Added path a.report
          (act_measured fs measured draw has_quarantine has_journal rule dry_run i path a
            size).report
  act_measured-Added rule dry_run i path a none = inr (refl, refl)
  act_measured-Added rule dry_run i path a (some size) =
      if-cases (λ (b : Acting Disk). Added path a.report b.report)
        (not dry_run && has_quarantine && is_quarantine_action rule.action)
        (λ e. after_capture-Added path size a.report (
          capture fs (capture_of fs measured draw has_quarantine has_journal rule i path)
            a.quarantine a.disk))
        (λ e. inl (refl, refl))

  act_on-AddedAll :
      (rule : Rule) (dry_run : Bool) (i : ℕ) (paths : List Bytes) (a : Acting Disk)
      → AddedAll paths a.report
          (act_on fs measured draw has_quarantine has_journal rule dry_run i paths a).report
  unfolding act_on
  act_on-AddedAll rule dry_run i [] a =
      ([], [], (refl, refl), sym (append-nil a.report.errors), omega arith)
  act_on-AddedAll rule dry_run i (path ∷ paths) a =
      let b =
        act_measured fs measured draw has_quarantine has_journal rule dry_run i path a
          (measured path a.disk) in
      Added-AddedAll path paths a.report b.report
        (act_on fs measured draw has_quarantine has_journal rule dry_run (suc i) paths b).report
        (act_measured-Added rule dry_run i path a (measured path a.disk))
        (act_on-AddedAll rule dry_run (suc i) paths b)

  -- The files that a rule matched fall into two lists, in order: one is the errors of the report of its
  -- execution, and the other has as many files as the report counts as acted on, in 64 bits.
  pub execute-Accounts :
      (found : Bytes → List FoundFile) (rule : Rule) (dry_run : Bool) (q : Quarantine) (disk : Disk)
      (journal : List RuleJournalEntry) (e : RuleEvaluation)
      → evaluate found rule ≡ ok e
      → Accounts e.matched_paths
          (execute fs measured draw has_quarantine has_journal found rule dry_run q disk
            journal).result
  unfolding execute
  execute-Accounts found rule dry_run q disk journal e h =
      let (acted, errors, split, same, count) =
        act_on-AddedAll rule dry_run 0 e.matched_paths record {
          report = fresh_report fs measured draw has_quarantine has_journal rule dry_run;
          quarantine = q;
          disk = disk;
        } in
      rw h (acted, rw same split, omega (arith, count))

  -- What a path adds where nothing is captured.
  abbrev Reported : RuleExecutionReport → List ℕ → RuleExecutionReport → Type 0
  Reported before sizes after =
      (after.acted_count % 2 ^ 64 ≡ (before.acted_count + length sizes) % 2 ^ 64)
      × (after.reclaimed_bytes % 2 ^ 64 ≡ (before.reclaimed_bytes + sum sizes) % 2 ^ 64)

  abbrev pub known_sizes : List Bytes → Disk → List ℕ
  known_sizes [] disk = []
  known_sizes (path ∷ paths) disk = known_size (measured path disk) (known_sizes paths disk)

  -- What is left of a loop that captures nothing.
  abbrev Untouched : List Bytes → Acting Disk → Acting Disk → Type 0
  Untouched paths a b =
      Reported a.report (known_sizes paths a.disk) b.report
      × ((b.quarantine ≡ a.quarantine) × (b.disk ≡ a.disk))

  act_measured-Untouched :
      (rule : Rule) (dry_run : Bool) (i : ℕ) (path : Bytes) (paths : List Bytes) (a : Acting Disk)
      (later : Acting Disk → Acting Disk) (o : Option ℕ)
      → (not dry_run && has_quarantine && is_quarantine_action rule.action) ≡ false
      → ((a' : Acting Disk) → Untouched paths a' (later a'))
      → let b =
          later
            (act_measured fs measured draw has_quarantine has_journal rule dry_run i path a o) in
        Reported a.report (known_size o (known_sizes paths a.disk)) b.report
        × ((b.quarantine ≡ a.quarantine) × (b.disk ≡ a.disk))
  act_measured-Untouched rule dry_run i path paths a later none h go =
      go record a { report = add_error path a.report }
  act_measured-Untouched rule dry_run i path paths a later (some size) h go = rw h (
      let left = go record a { report = add_acted size a.report } in
      ((omega (arith, left.0.0), omega (arith, left.0.1)), left.1))

  act_on-Untouched :
      (rule : Rule) (dry_run : Bool) (i : ℕ) (paths : List Bytes) (a : Acting Disk)
      → (not dry_run && has_quarantine && is_quarantine_action rule.action) ≡ false
      → Untouched paths a
          (act_on fs measured draw has_quarantine has_journal rule dry_run i paths a)
  unfolding act_on
  act_on-Untouched rule dry_run i [] a h = ((omega arith, omega arith), (refl, refl))
  act_on-Untouched rule dry_run i (path ∷ paths) a h =
      act_measured-Untouched rule dry_run i path paths a
        (act_on fs measured draw has_quarantine has_journal rule dry_run (suc i) paths)
        (measured path a.disk) h (λ a'. act_on-Untouched rule dry_run (suc i) paths a' h)

  -- The report names as acted on, and as reclaimed, in 64 bits.
  abbrev pub Claims : List ℕ → Result RuleExecutionReport → Type 0
  Claims sizes (err e) = ⊥
  Claims sizes (ok r) =
      (r.acted_count % 2 ^ 64 ≡ length sizes % 2 ^ 64)
      × (r.reclaimed_bytes % 2 ^ 64 ≡ sum sizes % 2 ^ 64)

  -- A dry run, or any action but that of the quarantine, or an engine without one, leaves the quarantine
  -- and the disk as they are; the report counts as acted on and as reclaimed, in 64 bits, all matched
  -- files whose size can be told.
  pub execute-Claims :
      (found : Bytes → List FoundFile) (rule : Rule) (dry_run : Bool) (q : Quarantine) (disk : Disk)
      (journal : List RuleJournalEntry) (e : RuleEvaluation)
      → evaluate found rule ≡ ok e
      → (not dry_run && has_quarantine && is_quarantine_action rule.action) ≡ false
      → let x =
          execute fs measured draw has_quarantine has_journal found rule dry_run q disk journal in
        Claims (known_sizes e.matched_paths disk) x.result × ((x.quarantine ≡ q) × (x.disk ≡ disk))
  unfolding execute
  execute-Claims found rule dry_run q disk journal e h idle = rw h (
      let left =
        act_on-Untouched rule dry_run 0 e.matched_paths
          record {
            report = fresh_report fs measured draw has_quarantine has_journal rule dry_run;
            quarantine = q;
            disk = disk;
          }
          idle in
      ((omega (arith, left.0.0), omega (arith, left.0.1)), left.1))
