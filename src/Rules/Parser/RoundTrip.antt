-- ===== src/Rules/Parser/RoundTrip.antt =====
-- Rules come back from the file that they are written to.
use mathlib.Core.List.{append-nil, append_assoc}
use mathlib.Core.Path.{subst}
use vaulkeeper.Prelude.{
  Bool, Every, List, Option, [], ap, map, none, refl, some, sym, true, ℕ, ◌++◌, ◌<◌, ◌^◌, ◌∙◌, ◌∷◌,
  ◌≡◌,
}
use vaulkeeper.Prelude.Bytes.{Bytes, bytes_eq, codes}
use vaulkeeper.Rules.{Rule}
use vaulkeeper.Rules.Parser.{
  YamlCalls, bool_at, condition_of, extensions_of, gives, parse_condition, parse_extensions,
  parse_rule, parse_rules, parse_rules_from_yaml, parse_trigger, string_at, trigger_of, uint32_at,
  uint64_at,
}
use vaulkeeper.Rules.Parser.Laws.{YamlLaws}
use vaulkeeper.Rules.Parser.Nodes.{rule_node-Holds}
use vaulkeeper.Rules.Parser.Words.{
  action_from_string-action_to_string, trigger_from_string-trigger_to_string,
}
use vaulkeeper.Rules.Writer.{push_rules, rule_node, write_rules_result, write_rules_to_yaml}
use vaulkeeper.Util.Error.{ok}

-- The numbers of a rule have the widths of their types.
pub record IsSized (r : Rule) : Type 0 where
  pub priority : r.priority < 2 ^ 32
  pub free_space_threshold_bytes : r.trigger.free_space_threshold_bytes < 2 ^ 64
  pub min_age_days : r.condition.min_age_days < 2 ^ 64
  pub min_size_bytes : r.condition.min_size_bytes < 2 ^ 64
  pub max_size_bytes : r.condition.max_size_bytes < 2 ^ 64

module _ {Node Disk : Type 0} (yaml : YamlCalls Node Disk) (laws : YamlLaws yaml) where
  string_at_lem :
      (key fallback s : Bytes) (node : Node)
      → yaml.at key node ≡ gives (yaml.of_string s)
      → string_at yaml key fallback node ≡ gives s
  unfolding string_at
  string_at_lem key fallback s node h = rw h (rw (laws.string s) refl)

  bool_at_lem :
      (key : Bytes) (fallback b : Bool) (node : Node)
      → yaml.at key node ≡ gives (yaml.of_bool b)
      → bool_at yaml key fallback node ≡ gives b
  unfolding bool_at
  bool_at_lem key fallback b node h = rw h (rw (laws.bool b) refl)

  uint32_at_lem :
      (key : Bytes) (fallback n : ℕ) (node : Node)
      → n < 2 ^ 32
      → yaml.at key node ≡ gives (yaml.of_uint32 n)
      → uint32_at yaml key fallback node ≡ gives n
  unfolding uint32_at
  uint32_at_lem key fallback n node l h = rw h (rw (laws.uint32 n l) refl)

  uint64_at_lem :
      (key : Bytes) (fallback n : ℕ) (node : Node)
      → n < 2 ^ 64
      → yaml.at key node ≡ gives (yaml.of_uint64 n)
      → uint64_at yaml key fallback node ≡ gives n
  unfolding uint64_at
  uint64_at_lem key fallback n node l h = rw h (rw (laws.uint64 n l) refl)

  parse_extensions-map :
      (es : List Bytes) → parse_extensions yaml (map yaml.of_string es) ≡ gives es
  unfolding parse_extensions
  parse_extensions-map [] = refl
  parse_extensions-map (e ∷ es) = rw (laws.string e) (rw (parse_extensions-map es) refl)

  parse_trigger-rule_node :
      (r : Rule) → IsSized r → parse_trigger yaml (rule_node yaml r) ≡ gives r.trigger
  unfolding parse_trigger trigger_of bytes_eq
  parse_trigger-rule_node r sized =
      let h = rule_node-Holds yaml laws r in
      rw
        (
          h.top (codes "trigger"),
          h.trigger_defined,
          string_at_lem (codes "kind") (codes "manual") _ h.trigger (h.in_trigger (codes "kind")),
          string_at_lem (codes "cron") [] _ h.trigger (h.in_trigger (codes "cron")),
          uint64_at_lem (codes "free_space_below_bytes") 0 _ h.trigger
              sized.free_space_threshold_bytes (h.in_trigger (codes "free_space_below_bytes")),
          trigger_from_string-trigger_to_string r.trigger.kind,
        )
        refl

  parse_condition-rule_node :
      (r : Rule) → IsSized r → parse_condition yaml (rule_node yaml r) ≡ gives r.condition
  unfolding parse_condition condition_of extensions_of bytes_eq
  parse_condition-rule_node r sized =
      let h = rule_node-Holds yaml laws r in
      let number =
        λ (key : Bytes) (n : ℕ) (l : n < 2 ^ 64)
            (there : yaml.at key h.condition ≡ gives (yaml.of_uint64 n)).
          uint64_at_lem key 0 n h.condition l there in
      rw
        (
          h.top (codes "condition"),
          h.condition_defined,
          string_at_lem (codes "path") [] _ h.condition (h.in_condition (codes "path")),
          number (codes "min_age_days") _ sized.min_age_days
              (h.in_condition (codes "min_age_days")),
          number (codes "min_size_bytes") _ sized.min_size_bytes
              (h.in_condition (codes "min_size_bytes")),
          number (codes "max_size_bytes") _ sized.max_size_bytes
              (h.in_condition (codes "max_size_bytes")),
          string_at_lem (codes "matcher") [] _ h.condition (h.in_condition (codes "matcher")),
          h.in_condition (codes "extensions"),
          laws.of_strings_defined r.condition.extensions,
          laws.of_strings_items r.condition.extensions,
          parse_extensions-map r.condition.extensions,
        )
        refl

  parse_rule-rule_node : (r : Rule) → IsSized r → parse_rule yaml (rule_node yaml r) ≡ gives r
  unfolding parse_rule bytes_eq
  parse_rule-rule_node r sized =
      let top = (rule_node-Holds yaml laws r).top in
      rw
        (
          string_at_lem (codes "id") [] _ _ (top (codes "id")),
          string_at_lem (codes "description") [] _ _ (top (codes "description")),
          bool_at_lem (codes "enabled") true _ _ (top (codes "enabled")),
          bool_at_lem (codes "dry_run") true _ _ (top (codes "dry_run")),
          uint32_at_lem (codes "priority") 100 _ _ sized.priority (top (codes "priority")),
          parse_trigger-rule_node r sized,
          parse_condition-rule_node r sized,
          string_at_lem (codes "action") (codes "delete_to_quarantine") _ _ (top (codes "action")),
          string_at_lem (codes "action_target") [] _ _ (top (codes "action_target")),
          action_from_string-action_to_string r.action,
        )
        refl

  parse_rules-map :
      (rs : List Rule) → Every IsSized rs → parse_rules yaml (map (rule_node yaml) rs) ≡ gives rs
  unfolding parse_rules
  parse_rules-map [] sized = refl
  parse_rules-map (r ∷ rs) sized =
      rw (parse_rule-rule_node r sized.0) (rw (parse_rules-map rs sized.1) refl)

  push_rules-sequence :
      (rs : List Rule) (node : Node)
      → laws.is_sequence node ≡ true
      → (laws.is_sequence (push_rules yaml rs node) ≡ true)
        × (yaml.items (push_rules yaml rs node) ≡ yaml.items node ++ map (rule_node yaml) rs)
  unfolding push_rules
  push_rules-sequence [] node h = (h, sym (append-nil (yaml.items node)))
  push_rules-sequence (r ∷ rs) node h =
      let pushed = yaml.push_back node (rule_node yaml r) in
      let (is, holds) =
        push_rules-sequence rs pushed (laws.push_back_sequence node (rule_node yaml r) h) in
      (
        is,
        holds
            ∙ ap (λ xs. xs ++ map (rule_node yaml) rs)
                (laws.push_back_items node (rule_node yaml r) h)
            ∙ append_assoc (yaml.items node) (rule_node yaml r ∷ []) (map (rule_node yaml) rs),
      )

  -- What is written to a file is loaded from it.
  abbrev pub KeepsNodes : Type 0
  KeepsNodes =
      (path : Bytes) (node : Node) (disk disk' : Disk)
      → yaml.write_file path node disk ≡ some disk'
      → yaml.load_file path disk' ≡ gives node

  -- Rules whose numbers have the widths of their types and that are written without an error are
  -- parsed as they were, all of their fields and in their order, if the library keeps what is put at
  -- the keys of a node, converts values back, and loads from a file the node that was written to it.
  pub parse-write_rules :
      (path : Bytes) (rules : List Rule) (disk disk' : Disk)
      → Every IsSized rules
      → KeepsNodes
      → write_rules_to_yaml yaml path rules disk ≡ (ok tt, disk')
      → parse_rules_from_yaml yaml path disk' ≡ ok rules
  unfolding parse_rules_from_yaml write_rules_to_yaml
  parse-write_rules path rules disk disk' sized keeps e =
      written (yaml.write_file path root created) refl e
    where
      list : Node
      list = push_rules yaml rules yaml.sequence

      root : Node
      root = yaml.set_at (codes "rules") list yaml.empty

      created : Disk
      created = yaml.create_directories (yaml.parent_path path) disk

      loaded :
          (d : Disk)
          → yaml.write_file path root created ≡ some d
          → parse_rules_from_yaml yaml path d ≡ ok rules
      loaded d h =
          let (is, holds) = push_rules-sequence rules yaml.sequence laws.sequence_lem in
          rw
            (
              keeps path root created d h,
              laws.at_set_at_self (codes "rules") list yaml.empty laws.empty_takes,
              laws.sequence_defined list is,
              holds,
              laws.sequence_items,
              parse_rules-map rules sized,
            )
            refl

      written :
          (o : Option Disk)
          → yaml.write_file path root created ≡ o
          → write_rules_result yaml created o ≡ (ok tt, disk')
          → parse_rules_from_yaml yaml path disk' ≡ ok rules
      written none h k = absurd (cc (ap (λ r. r.0) k))
      written (some d) h k =
          subst (λ d'. parse_rules_from_yaml yaml path d' ≡ ok rules) (ap (λ r. r.1) k) (loaded d h)
