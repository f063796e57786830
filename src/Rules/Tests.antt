-- ===== src/Rules/Tests.antt =====
-- A rule for old logs, written and parsed, and executed on a disk that takes every change.
use vaulkeeper.Fs.{FileSystem}
use vaulkeeper.Prelude.{
  List, [], arith, false, length, none, refl, some, suc, true, ℕ, ◌++◌, ◌∷◌, ◌≡◌, Option,
}
use vaulkeeper.Prelude.Bytes.{Bytes, bytes_eq, codes}
use vaulkeeper.Prelude.Int.{pos, ℤ}
use vaulkeeper.Quarantine.Store.{capture, fresh, persist_index}
use vaulkeeper.Rules.{Rule, cron_trigger, delete_to_quarantine, no_condition, permanent_delete}
use vaulkeeper.Rules.Engine.{
  FoundFile, RuleEvaluation, act_on, evaluate, evaluate_files, execute, matches,
}
use vaulkeeper.Rules.Engine.Accounts.{Accounts, Claims, execute-Accounts, execute-Claims}
use vaulkeeper.Rules.NodeTests.{
  TestNode, nothing, test_yaml, test_yaml-KeepsNodes, test_yaml-YamlLaws,
}
use vaulkeeper.Rules.Parser.{parse_rules_from_yaml}
use vaulkeeper.Rules.Parser.RoundTrip.{IsSized, parse-write_rules}
use vaulkeeper.Rules.Writer.{write_rules_to_yaml}
use vaulkeeper.Util.Error.{ok}

abbrev old_logs : Rule
old_logs = record {
  id = codes "logs";
  description = codes "old logs";
  enabled = true;
  dry_run = false;
  trigger = record {
    kind = cron_trigger;
    cron_expression = codes "* * * * *";
    free_space_threshold_bytes = 0;
  };
  condition = record no_condition {
    path = codes "C:/logs";
    min_size_bytes = 10;
    extensions = codes "log" ∷ [];
  };
  action = delete_to_quarantine;
  action_target = [];
  priority = 7;
}

old_logs-IsSized : IsSized old_logs
old_logs-IsSized = record {
  priority = omega arith;
  free_space_threshold_bytes = omega arith;
  min_age_days = omega arith;
  min_size_bytes = omega arith;
  max_size_bytes = omega arith;
}

abbrev written_logs : TestNode
written_logs = (write_rules_to_yaml test_yaml (codes "r.yml") (old_logs ∷ []) nothing).1

parse-write_rules_example :
    parse_rules_from_yaml test_yaml (codes "r.yml") written_logs ≡ ok (old_logs ∷ [])
parse-write_rules_example =
    parse-write_rules test_yaml test_yaml-YamlLaws (codes "r.yml") (old_logs ∷ []) nothing
      written_logs (old_logs-IsSized, tt) test_yaml-KeepsNodes (unfold write_rules_to_yaml in refl)

-- The disk counts its changes.
abbrev easy_fs : FileSystem ℕ
easy_fs = record {
  exists = λ path disk. true;
  absolute = λ path disk. path;
  is_directory = λ path disk. false;
  tree = λ path disk. [];
  file_size = λ path disk. 12;
  create_directories = λ path disk. (none, suc disk);
  rename = λ from to disk. (none, suc disk);
  remove_all = λ path disk. suc disk;
  write_file = λ path text disk. some (suc disk);
  read_file = λ path disk. none;
  join = λ a b. a ++ b'/' ∷ b;
  filename = λ path. path;
  parent_path = λ path. path;
}

abbrev log_file : FoundFile
log_file = record {
  path = codes "C:/logs/a.log";
  type_failed = false;
  is_regular = true;
  size = some 12;
  extension = codes ".log";
  age_hours = none;
}

abbrev found_logs : Bytes → List FoundFile
found_logs path = log_file ∷ record log_file { size = some 9 } ∷ log_file ∷ []

abbrev draws : ℕ → Bytes × (ℤ × ℤ)
draws n = (n ∷ [], (pos 1000, pos 1001))

abbrev two_logs : RuleEvaluation
two_logs = record {
  rule_id = codes "logs";
  matched_paths = codes "C:/logs/a.log" ∷ codes "C:/logs/a.log" ∷ [];
  total_bytes = 24;
}

evaluated : evaluate found_logs old_logs ≡ ok two_logs
unfolding evaluate evaluate_files matches bytes_eq
evaluated = refl

abbrev known : Bytes → ℕ → Option ℕ
known path disk = some 12

execute-Accounts_example :
    Accounts two_logs.matched_paths
      (execute easy_fs known draws true true found_logs old_logs false fresh 0 []).result
execute-Accounts_example =
    execute-Accounts easy_fs known draws true true found_logs old_logs false fresh 0 [] two_logs
      evaluated

abbrev delete_logs : Rule
delete_logs = record old_logs { action = permanent_delete }

evaluated_too : evaluate found_logs delete_logs ≡ ok two_logs
unfolding evaluate evaluate_files matches bytes_eq
evaluated_too = refl

execute-Claims_example :
    let x = execute easy_fs known draws true true found_logs delete_logs false fresh 0 [] in
    Claims easy_fs known draws true true (12 ∷ 12 ∷ []) x.result
    × ((x.quarantine ≡ fresh) × (x.disk ≡ 0))
execute-Claims_example =
    execute-Claims easy_fs known draws true true found_logs delete_logs false fresh 0 [] two_logs
      evaluated_too refl

-- Two captures are kept by the quarantine.
captured_both :
    length
      (execute easy_fs known draws true true found_logs old_logs false fresh 0 []).quarantine.items
    ≡ 2
unfolding execute evaluate evaluate_files matches bytes_eq act_on capture persist_index
captured_both = refl
