-- ===== src/Rules/Writer.antt =====
-- `writeRulesToYaml` of src/core/rules/rule_parser.cpp: rules to YAML, over the calls of Rules.Parser.
use vaulkeeper.Prelude.{List, Option, [], none, some, ◌∷◌}
use vaulkeeper.Prelude.Bytes.{Bytes, codes}
use vaulkeeper.Rules.{
  Rule, RuleAction, RuleCondition, RuleTrigger, RuleTriggerKind, compress, cron_trigger,
  delete_to_quarantine, free_space_below, manual, move_to, notify, on_boot, on_external_disk,
  on_login, permanent_delete, run_shell, tag_with,
}
use vaulkeeper.Rules.Parser.{YamlCalls}
use vaulkeeper.Util.Error.{Result, fail, io_error, ok}

unfoldable pub trigger_to_string : RuleTriggerKind → Bytes
trigger_to_string cron_trigger = codes "cron"
trigger_to_string free_space_below = codes "free_space_below"
trigger_to_string on_boot = codes "on_boot"
trigger_to_string on_login = codes "on_login"
trigger_to_string on_external_disk = codes "on_external_disk"
trigger_to_string manual = codes "manual"

unfoldable pub action_to_string : RuleAction → Bytes
action_to_string delete_to_quarantine = codes "delete_to_quarantine"
action_to_string permanent_delete = codes "permanent_delete"
action_to_string compress = codes "compress"
action_to_string move_to = codes "move_to"
action_to_string tag_with = codes "tag_with"
action_to_string run_shell = codes "run_shell"
action_to_string notify = codes "notify"

module _ {Node Disk : Type 0} (yaml : YamlCalls Node Disk) where
  -- `node[key] = value` for each key in order, and `node[outer][key] = value`.
  unfoldable pub put_all : List (Bytes × Node) → Node → Node
  put_all [] node = node
  put_all ((key, value) ∷ entries) node = put_all entries (yaml.set_at key value node)

  unfoldable pub put_all_below : Bytes → List (Bytes × Node) → Node → Node
  put_all_below outer [] node = node
  put_all_below outer ((key, value) ∷ entries) node =
      put_all_below outer entries
        (yaml.set_at outer (yaml.set_at key value (yaml.child outer node)) node)

  abbrev pub first_entries : Rule → List (Bytes × Node)
  first_entries r =
      (codes "id", yaml.of_string r.id)
      ∷ (codes "description", yaml.of_string r.description)
      ∷ (codes "enabled", yaml.of_bool r.enabled)
      ∷ (codes "dry_run", yaml.of_bool r.dry_run)
      ∷ (codes "priority", yaml.of_uint32 r.priority)
      ∷ []

  abbrev pub trigger_entries : RuleTrigger → List (Bytes × Node)
  trigger_entries t =
      (codes "kind", yaml.of_string (trigger_to_string t.kind))
      ∷ (codes "cron", yaml.of_string t.cron_expression)
      ∷ (codes "free_space_below_bytes", yaml.of_uint64 t.free_space_threshold_bytes)
      ∷ []

  abbrev pub condition_entries : RuleCondition → List (Bytes × Node)
  condition_entries c =
      (codes "path", yaml.of_string c.path)
      ∷ (codes "min_age_days", yaml.of_uint64 c.min_age_days)
      ∷ (codes "min_size_bytes", yaml.of_uint64 c.min_size_bytes)
      ∷ (codes "max_size_bytes", yaml.of_uint64 c.max_size_bytes)
      ∷ (codes "matcher", yaml.of_string c.matcher)
      ∷ (codes "extensions", yaml.of_strings c.extensions)
      ∷ []

  abbrev pub last_entries : Rule → List (Bytes × Node)
  last_entries r =
      (codes "action", yaml.of_string (action_to_string r.action))
      ∷ (codes "action_target", yaml.of_string r.action_target)
      ∷ []

  unfoldable pub rule_node : Rule → Node
  rule_node r =
      let first = put_all (first_entries r) yaml.empty in
      let with_trigger = put_all_below (codes "trigger") (trigger_entries r.trigger) first in
      let with_condition =
        put_all_below (codes "condition") (condition_entries r.condition) with_trigger in
      put_all (last_entries r) with_condition

  unfoldable pub push_rules : List Rule → Node → Node
  push_rules [] node = node
  push_rules (r ∷ rs) node = push_rules rs (yaml.push_back node (rule_node r))

  abbrev pub write_rules_result : Disk → Option Disk → Result (Unit {0}) × Disk
  write_rules_result disk none = (fail io_error "cannot write rules", disk)
  write_rules_result disk (some disk') = (ok tt, disk')

  unfoldable pub write_rules_to_yaml : Bytes → List Rule → Disk → Result (Unit {0}) × Disk
  write_rules_to_yaml path rules disk =
      let root = yaml.set_at (codes "rules") (push_rules rules yaml.sequence) yaml.empty in
      let disk' = yaml.create_directories (yaml.parent_path path) disk in
      write_rules_result disk' (yaml.write_file path root disk')
