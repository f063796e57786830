-- ===== src/Rules/Engine.antt =====
-- src/core/rules/rule_engine.cpp: which files a rule matches, and what it does to them.
pub mod Accounts
use vaulkeeper.Fs.{FileSystem}
use vaulkeeper.Prelude.{
  Bool, List, Option, [], false, if◌then◌else◌, ltb, none, not, some, suc, true, ℕ, ◌%◌, ◌&&◌, ◌*◌,
  ◌++◌, ◌+◌, ◌-◌, ◌==◌, ◌^◌, ◌||◌, ◌∷◌,
}
use vaulkeeper.Prelude.Bytes.{Bytes, bytes_eq, codes}
use vaulkeeper.Prelude.Decimal.{print_nat}
use vaulkeeper.Prelude.Int.{ltb_ℤ, signed_64, ℤ}
use vaulkeeper.Quarantine.Index.{QuarantineItem}
use vaulkeeper.Quarantine.Store.{Capture, Outcome, Quarantine, capture}
use vaulkeeper.Rules.{Rule, RuleAction, RuleCondition, delete_to_quarantine}
use vaulkeeper.Util.Error.{Result, err, fail, invalid_argument, ok}

-- What the directory iterator comes by.
pub record FoundFile : Type 0 where
  pub path : Bytes
  -- `is_regular_file` reports an error and false, or what it finds.
  pub type_failed : Bool
  pub is_regular : Bool
  -- None where `file_size` reports an error.
  pub size : Option ℕ
  pub extension : Bytes
  -- None where the age cannot be told.
  pub age_hours : Option ℤ

-- `file_size` returns 2 ^ 64 - 1 with its error.
abbrev pub size_or_max : Option ℕ → ℕ
size_or_max none = 2 ^ 64 - 1
size_or_max (some n) = n

abbrev pub is_failed : Option ℕ → Bool
is_failed none = true
is_failed (some n) = false

-- Whether the error code is set behind the calls on an entry. It is kept for the next one.
abbrev pub leaves_error : FoundFile → Bool
leaves_error f = f.type_failed || f.is_regular && is_failed f.size

abbrev pub has_extension : Bytes → List Bytes → Bool
has_extension ext [] = false
has_extension ext (e ∷ es) = bytes_eq ext e || bytes_eq ext (codes "." ++ e) || has_extension ext es

abbrev pub matches_extension : Bytes → List Bytes → Bool
matches_extension ext [] = true
matches_extension ext (e ∷ es) = has_extension ext (e ∷ es)

abbrev pub age_reaches : ℤ → Option ℤ → Bool
age_reaches least none = false
age_reaches least (some hours) = not (ltb_ℤ hours least)

abbrev pub older_than_days : Option ℤ → ℕ → Bool
older_than_days age days =
    if days == 0 then true else age_reaches (signed_64 (days * 24 % 2 ^ 64)) age

-- The conditions that a file passes to be matched, in their order.
unfoldable pub matches : RuleCondition → FoundFile → Bool
unfolding bytes_eq
matches c f =
    if f.type_failed || not f.is_regular
    then false
    else if not (c.min_size_bytes == 0) && ltb (size_or_max f.size) c.min_size_bytes
    then false
    else if not (c.max_size_bytes == 0) && ltb c.max_size_bytes (size_or_max f.size)
    then false
    else if not (matches_extension f.extension c.extensions)
    then false
    else older_than_days f.age_hours c.min_age_days

pub record RuleEvaluation : Type 0 where
  pub rule_id : Bytes
  pub matched_paths : List Bytes
  pub total_bytes : ℕ

abbrev pub count_match : FoundFile → RuleEvaluation → RuleEvaluation
count_match f e = record e {
  matched_paths = e.matched_paths ++ f.path ∷ [];
  total_bytes = (e.total_bytes + size_or_max f.size) % 2 ^ 64;
}

-- The loop, with whether the error code is set: such a round clears it and passes its entry over.
unfoldable pub evaluate_files :
    RuleCondition → Bool → List FoundFile → RuleEvaluation → RuleEvaluation
unfolding matches
evaluate_files c ec [] e = e
evaluate_files c ec (f ∷ fs) e =
    evaluate_files c (if ec then false else leaves_error f) fs
      (if not ec && matches c f then count_match f e else e)

abbrev pub evaluate_at : Bytes → (Bytes → List FoundFile) → Rule → Result RuleEvaluation
evaluate_at [] found rule = fail invalid_argument "rule condition path missing"
evaluate_at (c ∷ path) found rule = ok (
    evaluate_files rule.condition false (found (c ∷ path))
      record { rule_id = rule.id; matched_paths = []; total_bytes = 0 })

-- `evaluate`, with what is found below a path.
unfoldable pub evaluate : (Bytes → List FoundFile) → Rule → Result RuleEvaluation
unfolding evaluate_files
evaluate found rule = evaluate_at rule.condition.path found rule

pub record RuleExecutionReport : Type 0 where
  pub rule_id : Bytes
  pub dry_run : Bool
  pub acted_count : ℕ
  pub reclaimed_bytes : ℕ
  pub errors : List Bytes

-- An entry of the journal, without its time: of kind `RuleExecuted`, by the actor `rule_engine`.
pub record RuleJournalEntry : Type 0 where
  pub subject : Bytes
  pub detail : Bytes
  pub size_bytes : ℤ
  pub correlation_id : Bytes

-- The report as it grows, with the quarantine and the disk.
pub record Acting (Disk : Type 0) : Type 0 where
  pub report : RuleExecutionReport
  pub quarantine : Quarantine
  pub disk : Disk

abbrev pub add_error : Bytes → RuleExecutionReport → RuleExecutionReport
add_error path r = record r { errors = r.errors ++ path ∷ [] }

abbrev pub add_acted : ℕ → RuleExecutionReport → RuleExecutionReport
add_acted size r = record r {
  reclaimed_bytes = (r.reclaimed_bytes + size) % 2 ^ 64;
  acted_count = (r.acted_count + 1) % 2 ^ 64;
}

abbrev pub is_quarantine_action : RuleAction → Bool
is_quarantine_action delete_to_quarantine = true
is_quarantine_action _ = false

abbrev pub print_bool : Bool → Bytes
print_bool true = codes "true"
print_bool false = codes "false"

unfoldable pub rule_entry : Rule → RuleExecutionReport → RuleJournalEntry
unfolding print_nat
rule_entry rule r = record {
  subject = rule.id;
  detail =
      codes "acted="
      ++ print_nat r.acted_count
      ++ codes " reclaimed="
      ++ print_nat r.reclaimed_bytes
      ++ codes " dry_run="
      ++ print_bool r.dry_run;
  size_bytes = signed_64 r.reclaimed_bytes;
  correlation_id = rule.id;
}

-- What `execute` gives back and leaves.
pub record Executed (Disk : Type 0) : Type 0 where
  pub result : Result RuleExecutionReport
  pub quarantine : Quarantine
  pub disk : Disk
  pub journal : List RuleJournalEntry

-- The sizes of files, none where they cannot be told; the id and the times that the capture of the
-- n-th path draws; and whether the engine has a quarantine and a journal.
module _ {Disk : Type 0} (fs : FileSystem Disk) (measured : Bytes → Disk → Option ℕ)
    (draw : ℕ → Bytes × (ℤ × ℤ)) (has_quarantine has_journal : Bool) where
  abbrev pub capture_of : Rule → ℕ → Bytes → Capture
  capture_of rule n path = record {
    source = path;
    reason = codes "rule:" ++ rule.id;
    correlation_id = rule.id;
    item_id = (draw n).0;
    captured_at = (draw n).1.0;
    clock = (draw n).1.1;
  }

  abbrev pub after_capture :
      Bytes → ℕ → RuleExecutionReport → Outcome Disk QuarantineItem → Acting Disk
  after_capture path size r (ok item, (q, disk)) = record {
    report = add_acted size r;
    quarantine = q;
    disk = disk;
  }
  after_capture path size r (err e, (q, disk)) = record {
    report = add_error path r;
    quarantine = q;
    disk = disk;
  }

  abbrev pub act_measured : Rule → Bool → ℕ → Bytes → Acting Disk → Option ℕ → Acting Disk
  act_measured rule dry_run n path a none = record a { report = add_error path a.report }
  act_measured rule dry_run n path a (some size) =
      if not dry_run && has_quarantine && is_quarantine_action rule.action
      then after_capture path size a.report
          (capture fs (capture_of rule n path) a.quarantine a.disk)
      else record a { report = add_acted size a.report }

  -- The loop over the paths, from the n-th on.
  unfoldable pub act_on : Rule → Bool → ℕ → List Bytes → Acting Disk → Acting Disk
  unfolding capture
  act_on rule dry_run n [] a = a
  act_on rule dry_run n (path ∷ paths) a =
      act_on rule dry_run (suc n) paths (act_measured rule dry_run n path a (measured path a.disk))

  abbrev pub executed : Rule → List RuleJournalEntry → Acting Disk → Executed Disk
  executed rule journal a = record {
    result = ok a.report;
    quarantine = a.quarantine;
    disk = a.disk;
    journal = if has_journal then journal ++ rule_entry rule a.report ∷ [] else journal;
  }

  abbrev pub fresh_report : Rule → Bool → RuleExecutionReport
  fresh_report rule dry_run = record {
    rule_id = rule.id;
    dry_run = dry_run;
    acted_count = 0;
    reclaimed_bytes = 0;
    errors = [];
  }

  abbrev pub execute_evaluated :
      Rule
      → Bool
      → Quarantine
      → Disk
      → List RuleJournalEntry
      → Result RuleEvaluation
      → Executed Disk
  execute_evaluated rule dry_run q disk journal (err e) = record {
    result = err e;
    quarantine = q;
    disk = disk;
    journal = journal;
  }
  execute_evaluated rule dry_run q disk journal (ok e) = executed rule journal (
      act_on rule dry_run 0 e.matched_paths
        record { report = fresh_report rule dry_run; quarantine = q; disk = disk })

  unfoldable pub execute :
      (Bytes → List FoundFile)
      → Rule
      → Bool
      → Quarantine
      → Disk
      → List RuleJournalEntry
      → Executed Disk
  unfolding act_on evaluate rule_entry
  execute found rule dry_run q disk journal =
      execute_evaluated rule dry_run q disk journal (evaluate found rule)
