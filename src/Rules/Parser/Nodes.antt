-- ===== src/Rules/Parser/Nodes.antt =====
-- What the nodes that Rules.Writer builds hold, from the laws of the library's calls.
use mathlib.Core.Path.{subst}
use vaulkeeper.Prelude.{
  Bool-cases, List, [], ap, if◌then◌else◌, inl, inr, refl, sym, true, ◌∙◌, ◌∷◌, ◌≡◌,
}
use vaulkeeper.Prelude.Bytes.{Bytes, bytes_eq, bytes_eq_iff, codes}
use vaulkeeper.Rules.{Rule}
use vaulkeeper.Rules.Parser.{Yaml, YamlCalls, gives}
use vaulkeeper.Rules.Parser.Laws.{YamlLaws}
use vaulkeeper.Rules.Writer.{
  condition_entries, first_entries, last_entries, put_all, put_all_below, rule_node,
  trigger_entries,
}

-- The value that entries put at a key in their order, or else the one that was there.
abbrev pub put_at : {Node : Type 0} → Bytes → List (Bytes × Node) → Yaml Node → Yaml Node
put_at key [] there = there
put_at key ((k, value) ∷ entries) there =
    put_at key entries (if bytes_eq k key then gives value else there)

module _ {Node Disk : Type 0} (yaml : YamlCalls Node Disk) (laws : YamlLaws yaml) where
  at-set_at :
      (key k : Bytes) (value node : Node)
      → laws.takes_keys node ≡ true
      → yaml.at key (yaml.set_at k value node)
        ≡ (if bytes_eq k key then gives value else yaml.at key node)
  at-set_at key k value node open_node = elim (Bool-cases (bytes_eq k key)) [
    | inl e ↦ rw (e, (bytes_eq_iff k key).0 e) (laws.at_set_at_self key value node open_node)
    | inr e ↦
        rw e (
          laws.at_set_at_ne k key value node open_node
            (λ same. cc (e, (bytes_eq_iff k key).1 same)))
  ]

  put_all-takes :
      (entries : List (Bytes × Node)) (node : Node)
      → laws.takes_keys node ≡ true
      → laws.takes_keys (put_all yaml entries node) ≡ true
  unfolding put_all
  put_all-takes [] node h = h
  put_all-takes ((k, v) ∷ entries) node h =
      put_all-takes entries (yaml.set_at k v node) (laws.set_at_takes k v node h)

  pub at-put_all :
      (key : Bytes) (entries : List (Bytes × Node)) (node : Node)
      → laws.takes_keys node ≡ true
      → yaml.at key (put_all yaml entries node) ≡ put_at key entries (yaml.at key node)
  unfolding put_all
  at-put_all key [] node h = refl
  at-put_all key ((k, v) ∷ entries) node h =
      at-put_all key entries (yaml.set_at k v node) (laws.set_at_takes k v node h)
      ∙ ap (put_at key entries) (at-set_at key k v node h)

  -- Below a key, where the first entry has made a map of it.
  record Below (outer : Bytes) (entries : List (Bytes × Node)) (inner node after : Node)
      : Type 0 where
    takes : laws.takes_keys after ≡ true
    there :
        (key : Bytes)
        → yaml.at key after
          ≡ (if bytes_eq outer key then gives (put_all yaml entries inner) else yaml.at key node)

  Below-step :
      (outer k : Bytes) (v : Node) (entries : List (Bytes × Node)) (m node : Node)
      → laws.takes_keys node ≡ true
      → yaml.child outer node ≡ m
      → (let m' = yaml.set_at k v m in
          let node' = yaml.set_at outer m' node in
          Below outer entries m' node' (put_all_below yaml outer entries node'))
      → Below outer ((k, v) ∷ entries) m node (put_all_below yaml outer ((k, v) ∷ entries) node)
  unfolding put_all put_all_below
  Below-step outer k v entries m node open_node made b =
      let m' = yaml.set_at k v m in
      subst
        (λ c.
          Below outer ((k, v) ∷ entries) m node
            (put_all_below yaml outer entries (yaml.set_at outer (yaml.set_at k v c) node)))
        (sym made)
        record {
          takes = b.takes;
          there = λ key.
              b.there key
              ∙ over key (gives m') (gives (put_all yaml entries m')) _
                  (at-set_at key outer m' node open_node);
        }
    where
      over :
          (key : Bytes) (x z y : Yaml Node)
          → y ≡ (if bytes_eq outer key then x else yaml.at key node)
          → (if bytes_eq outer key then z else y)
            ≡ (if bytes_eq outer key then z else yaml.at key node)
      over key x z y h = elim (Bool-cases (bytes_eq outer key)) [
        | inl e ↦ rw e refl
        | inr e ↦ rw e (rw e at h)
      ]

  Below-known :
      (outer : Bytes) (entries : List (Bytes × Node)) (m node : Node)
      → laws.takes_keys node ≡ true
      → laws.takes_keys m ≡ true
      → yaml.is_defined m ≡ true
      → yaml.at outer node ≡ gives m
      → Below outer entries m node (put_all_below yaml outer entries node)
  unfolding put_all put_all_below
  Below-known outer [] m node open_node open_m defined known = record {
    takes = open_node;
    there = λ key. elim (Bool-cases (bytes_eq outer key)) [
      | inl e ↦ rw e (ap (λ k. yaml.at k node) (sym ((bytes_eq_iff outer key).0 e)) ∙ known)
      | inr e ↦ rw e refl
    ];
  }
  Below-known outer ((k, v) ∷ entries) m node open_node open_m defined known =
      let m' = yaml.set_at k v m in
      Below-step outer k v entries m node open_node (laws.child_defined outer node m known defined)
        (Below-known outer entries m' (yaml.set_at outer m' node)
          (laws.set_at_takes outer m' node open_node) (laws.set_at_takes k v m open_m)
          (laws.set_at_defined k v m open_m) (laws.at_set_at_self outer m' node open_node))

  abbrev IsFull : List (Bytes × Node) → Type 0
  IsFull [] = ⊥
  IsFull (entry ∷ entries) = Unit

  Below-new :
      (outer : Bytes) (entries : List (Bytes × Node)) (node : Node)
      → IsFull entries
      → laws.takes_keys node ≡ true
      → yaml.at outer node ≡ gives laws.undefined
      → Below outer entries (yaml.child outer node) node (put_all_below yaml outer entries node)
  Below-new outer [] node full open_node missing = elim full [ ]
  Below-new outer ((k, v) ∷ entries) node full open_node missing =
      let m = yaml.child outer node in
      let open_m = laws.child_undefined outer node missing in
      let m' = yaml.set_at k v m in
      Below-step outer k v entries m node open_node refl (
        Below-known outer entries m' (yaml.set_at outer m' node)
          (laws.set_at_takes outer m' node open_node) (laws.set_at_takes k v m open_m)
          (laws.set_at_defined k v m open_m) (laws.at_set_at_self outer m' node open_node))

  put_all-defined :
      (entries : List (Bytes × Node)) (node : Node)
      → IsFull entries
      → laws.takes_keys node ≡ true
      → yaml.is_defined (put_all yaml entries node) ≡ true
  unfolding put_all
  put_all-defined [] node full h = elim full [ ]
  put_all-defined ((k, v) ∷ []) node full h = laws.set_at_defined k v node h
  put_all-defined ((k, v) ∷ (entry ∷ entries)) node full h =
      put_all-defined (entry ∷ entries) (yaml.set_at k v node) tt (laws.set_at_takes k v node h)

  -- What a node holds that was written for a rule: the keys in it, and in the two maps below it.
  pub record Holds (r : Rule) (node : Node) : Type 0 where
    pub trigger : Node
    pub condition : Node
    pub old_trigger : Bytes → Yaml Node
    pub old_condition : Bytes → Yaml Node
    pub top :
        (key : Bytes)
        → yaml.at key node
          ≡ put_at key (last_entries yaml r) (
              if bytes_eq (codes "condition") key
              then gives condition
              else if bytes_eq (codes "trigger") key
              then gives trigger
              else put_at key (first_entries yaml r) (gives laws.undefined))
    pub in_trigger :
        (key : Bytes)
        → yaml.at key trigger ≡ put_at key (trigger_entries yaml r.trigger) (old_trigger key)
    pub trigger_defined : yaml.is_defined trigger ≡ true
    pub in_condition :
        (key : Bytes)
        → yaml.at key condition
          ≡ put_at key (condition_entries yaml r.condition) (old_condition key)
    pub condition_defined : yaml.is_defined condition ≡ true

  pub rule_node-Holds : (r : Rule) → Holds r (rule_node yaml r)
  unfolding rule_node bytes_eq
  rule_node-Holds r =
      let first = put_all yaml (first_entries yaml r) yaml.empty in
      let second = put_all_below yaml (codes "trigger") (trigger_entries yaml r.trigger) first in
      let third =
        put_all_below yaml (codes "condition") (condition_entries yaml r.condition) second in
      let in_first = λ (key : Bytes).
        at-put_all key (first_entries yaml r) yaml.empty laws.empty_takes
        ∙ ap (put_at key (first_entries yaml r)) (laws.at_empty key) in
      let no_trigger_yet : yaml.at (codes "trigger") first ≡ gives laws.undefined =
        in_first (codes "trigger") in
      let t =
        Below-new (codes "trigger") (trigger_entries yaml r.trigger) first tt
          (put_all-takes (first_entries yaml r) yaml.empty laws.empty_takes) no_trigger_yet in
      let no_condition_yet : yaml.at (codes "condition") second ≡ gives laws.undefined =
        t.there (codes "condition") ∙ in_first (codes "condition") in
      let c =
        Below-new (codes "condition") (condition_entries yaml r.condition) second tt t.takes
          no_condition_yet in
      let trigger =
        put_all yaml (trigger_entries yaml r.trigger) (yaml.child (codes "trigger") first) in
      let condition =
        put_all yaml (condition_entries yaml r.condition) (yaml.child (codes "condition") second) in
      let open_trigger = laws.child_undefined (codes "trigger") first no_trigger_yet in
      let open_condition = laws.child_undefined (codes "condition") second no_condition_yet in
      record {
        trigger = trigger;
        condition = condition;
        old_trigger = λ key. yaml.at key (yaml.child (codes "trigger") first);
        old_condition = λ key. yaml.at key (yaml.child (codes "condition") second);
        top = λ key.
            at-put_all key (last_entries yaml r) third c.takes
            ∙ ap (put_at key (last_entries yaml r)) (
                c.there key
                ∙ ap (λ x. if bytes_eq (codes "condition") key then gives condition else x)
                    (t.there key
                      ∙ ap (λ x. if bytes_eq (codes "trigger") key then gives trigger else x)
                          (in_first key)));
        in_trigger = λ key. at-put_all key (trigger_entries yaml r.trigger) _ open_trigger;
        trigger_defined = put_all-defined (trigger_entries yaml r.trigger) _ tt open_trigger;
        in_condition = λ key. at-put_all key (condition_entries yaml r.condition) _ open_condition;
        condition_defined =
            put_all-defined (condition_entries yaml r.condition) _ tt open_condition;
      }
