-- ===== src/Rules/Parser.antt =====
-- `parseRulesFromYaml` of src/core/rules/rule_parser.cpp: rules from YAML. The nodes of the library yaml-cpp and its calls on them
-- are parameters; the keys and the conversions are the code's.
pub mod Laws
pub mod Nodes
pub mod RoundTrip
pub mod Words
use Prim.Native.String.{String}
use vaulkeeper.Prelude.{Bool, List, Option, [], if◌then◌else◌, none, some, true, ℕ, ◌∷◌}
use vaulkeeper.Prelude.Bytes.{Bytes, bytes_eq, codes}
use vaulkeeper.Rules.{
  Rule, RuleAction, RuleCondition, RuleTrigger, RuleTriggerKind, compress, cron_trigger,
  delete_to_quarantine, free_space_below, manual, move_to, no_condition, no_trigger, notify,
  on_boot, on_external_disk, on_login, permanent_delete, run_shell, tag_with,
}
use vaulkeeper.Util.Error.{Result, corrupted_data, fail, ok}

unfoldable pub trigger_from_string : Bytes → RuleTriggerKind
unfolding bytes_eq
trigger_from_string s =
    if bytes_eq s (codes "cron")
    then cron_trigger
    else if bytes_eq s (codes "free_space_below")
    then free_space_below
    else if bytes_eq s (codes "on_boot")
    then on_boot
    else if bytes_eq s (codes "on_login")
    then on_login
    else if bytes_eq s (codes "on_external_disk")
    then on_external_disk
    else manual

unfoldable pub action_from_string : Bytes → RuleAction
unfolding bytes_eq
action_from_string s =
    if bytes_eq s (codes "delete_to_quarantine")
    then delete_to_quarantine
    else if bytes_eq s (codes "permanent_delete")
    then permanent_delete
    else if bytes_eq s (codes "compress")
    then compress
    else if bytes_eq s (codes "move_to")
    then move_to
    else if bytes_eq s (codes "tag_with")
    then tag_with
    else if bytes_eq s (codes "run_shell")
    then run_shell
    else if bytes_eq s (codes "notify")
    then notify
    else delete_to_quarantine

-- What a call gives, or the message of the exception that it throws.
pub data Yaml (A : Type 0) : Type 0 where
  gives : A → Yaml A
  raises : String → Yaml A

infixl 5 ◌>>=◌
abbrev pub ◌>>=◌ : {A B : Type 0} → Yaml A → (A → Yaml B) → Yaml B
gives a >>= f = f a
raises what >>= f = raises what

-- The library yaml-cpp on its nodes, and the files.
pub record YamlCalls (Node Disk : Type 0) : Type 0 where
  -- `YAML::LoadFile`.
  pub load_file : Bytes → Disk → Yaml Node
  -- `node[key]` where it is read, and a node as a condition.
  pub at : Bytes → Node → Yaml Node
  pub is_defined : Node → Bool
  -- What a loop over a node comes by.
  pub items : Node → List Node
  -- What a node converts to, none where it does not; `as<T>()` then throws with this message.
  pub as_string : Node → Option Bytes
  pub as_bool : Node → Option Bool
  pub as_uint32 : Node → Option ℕ
  pub as_uint64 : Node → Option ℕ
  pub bad_conversion : Node → String
  -- `YAML::Node {}`, a node of type `Sequence`, and the nodes that are made of values.
  pub empty : Node
  pub sequence : Node
  pub of_string : Bytes → Node
  pub of_bool : Bool → Node
  pub of_uint32 : ℕ → Node
  pub of_uint64 : ℕ → Node
  pub of_strings : List Bytes → Node
  -- `node[key] = value`, `node[key]` of a node that is written, and `push_back`.
  pub set_at : Bytes → Node → Node → Node
  pub child : Bytes → Node → Node
  pub push_back : Node → Node → Node
  -- A node put into `std::ofstream os(path)`, none where the file does not open.
  pub write_file : Bytes → Node → Disk → Option Disk
  pub create_directories : Bytes → Disk → Disk
  pub parent_path : Bytes → Bytes

-- `as<T>(fallback)`.
abbrev pub or_fallback : {A : Type 0} → A → Option A → A
or_fallback fallback none = fallback
or_fallback fallback (some a) = a

abbrev pub caught : {A : Type 0} → Yaml A → Result A
caught (gives a) = ok a
caught (raises what) = fail corrupted_data what

module _ {Node Disk : Type 0} (yaml : YamlCalls Node Disk) where
  -- `node[key].as<T>(fallback)`.
  unfoldable pub string_at : Bytes → Bytes → Node → Yaml Bytes
  string_at key fallback node =
      yaml.at key node >>= λ m. gives (or_fallback fallback (yaml.as_string m))

  unfoldable pub bool_at : Bytes → Bool → Node → Yaml Bool
  bool_at key fallback node =
      yaml.at key node >>= λ m. gives (or_fallback fallback (yaml.as_bool m))

  unfoldable pub uint32_at : Bytes → ℕ → Node → Yaml ℕ
  uint32_at key fallback node =
      yaml.at key node >>= λ m. gives (or_fallback fallback (yaml.as_uint32 m))

  unfoldable pub uint64_at : Bytes → ℕ → Node → Yaml ℕ
  uint64_at key fallback node =
      yaml.at key node >>= λ m. gives (or_fallback fallback (yaml.as_uint64 m))

  unfoldable pub trigger_of : Node → Yaml RuleTrigger
  trigger_of t = do
    kind ← string_at (codes "kind") (codes "manual") t
    cron ← string_at (codes "cron") [] t
    threshold ← uint64_at (codes "free_space_below_bytes") 0 t
    gives record {
      kind = trigger_from_string kind;
      cron_expression = cron;
      free_space_threshold_bytes = threshold;
    }

  unfoldable pub parse_trigger : Node → Yaml RuleTrigger
  parse_trigger item = yaml.at (codes "trigger") item >>= λ t.
      if yaml.is_defined t then trigger_of t else gives no_trigger

  -- `as<std::string>()`, which throws.
  abbrev pub string_of : Node → Option Bytes → Yaml Bytes
  string_of node none = raises (yaml.bad_conversion node)
  string_of node (some s) = gives s

  unfoldable pub parse_extensions : List Node → Yaml (List Bytes)
  parse_extensions [] = gives []
  parse_extensions (e ∷ es) =
      string_of e (yaml.as_string e) >>= λ s. parse_extensions es >>= λ rest. gives (s ∷ rest)

  unfoldable pub extensions_of : Node → Yaml (List Bytes)
  extensions_of c = yaml.at (codes "extensions") c >>= λ es.
      if yaml.is_defined es then parse_extensions (yaml.items es) else gives []

  unfoldable pub condition_of : Node → Yaml RuleCondition
  condition_of c = do
    path ← string_at (codes "path") [] c
    min_age_days ← uint64_at (codes "min_age_days") 0 c
    min_size_bytes ← uint64_at (codes "min_size_bytes") 0 c
    max_size_bytes ← uint64_at (codes "max_size_bytes") 0 c
    matcher ← string_at (codes "matcher") [] c
    extensions ← extensions_of c
    gives record {
      path = path;
      min_age_days = min_age_days;
      min_size_bytes = min_size_bytes;
      max_size_bytes = max_size_bytes;
      extensions = extensions;
      matcher = matcher;
    }

  unfoldable pub parse_condition : Node → Yaml RuleCondition
  parse_condition item = yaml.at (codes "condition") item >>= λ c.
      if yaml.is_defined c then condition_of c else gives no_condition

  unfoldable pub parse_rule : Node → Yaml Rule
  parse_rule item = do
    id ← string_at (codes "id") [] item
    description ← string_at (codes "description") [] item
    enabled ← bool_at (codes "enabled") true item
    dry_run ← bool_at (codes "dry_run") true item
    priority ← uint32_at (codes "priority") 100 item
    trigger ← parse_trigger item
    condition ← parse_condition item
    action ← string_at (codes "action") (codes "delete_to_quarantine") item
    action_target ← string_at (codes "action_target") [] item
    gives record {
      id = id;
      description = description;
      enabled = enabled;
      dry_run = dry_run;
      trigger = trigger;
      condition = condition;
      action = action_from_string action;
      action_target = action_target;
      priority = priority;
    }

  unfoldable pub parse_rules : List Node → Yaml (List Rule)
  parse_rules [] = gives []
  parse_rules (item ∷ items) = parse_rule item >>= λ r. parse_rules items >>= λ rs. gives (r ∷ rs)

  unfoldable pub parse_rules_from_yaml : Bytes → Disk → Result (List Rule)
  parse_rules_from_yaml path disk = caught (
      yaml.load_file path disk >>= λ doc. yaml.at (codes "rules") doc >>= λ rules.
      if yaml.is_defined rules then parse_rules (yaml.items rules) else gives [])
