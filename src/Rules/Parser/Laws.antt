-- ===== src/Rules/Parser/Laws.antt =====
-- What Rules.Parser and Rules.Writer rely on of the library yaml-cpp.
use vaulkeeper.Prelude.{Bool, List, [], map, some, true, ℕ, ◌++◌, ◌<◌, ◌^◌, ◌∷◌, ◌≡◌, ◌≢◌}
use vaulkeeper.Prelude.Bytes.{Bytes}
use vaulkeeper.Rules.Parser.{YamlCalls, gives}

-- What yaml-cpp documents of its nodes. `undefined` is what a missing key gives; null and undefined
-- nodes and maps take keys.
pub record YamlLaws {Node Disk : Type 0} (yaml : YamlCalls Node Disk) : Type 0 where
  pub undefined : Node
  pub takes_keys : Node → Bool
  pub is_sequence : Node → Bool
  pub empty_takes : takes_keys yaml.empty ≡ true
  pub set_at_takes :
      (key : Bytes) (value node : Node)
      → takes_keys node ≡ true
      → takes_keys (yaml.set_at key value node) ≡ true
  pub at_empty : (key : Bytes) → yaml.at key yaml.empty ≡ gives undefined
  pub at_set_at_self :
      (key : Bytes) (value node : Node)
      → takes_keys node ≡ true
      → yaml.at key (yaml.set_at key value node) ≡ gives value
  pub at_set_at_ne :
      (key other : Bytes) (value node : Node)
      → takes_keys node ≡ true
      → key ≢ other
      → yaml.at other (yaml.set_at key value node) ≡ yaml.at other node
  pub child_undefined :
      (key : Bytes) (node : Node)
      → yaml.at key node ≡ gives undefined
      → takes_keys (yaml.child key node) ≡ true
  pub child_defined :
      (key : Bytes) (node child : Node)
      → yaml.at key node ≡ gives child
      → yaml.is_defined child ≡ true
      → yaml.child key node ≡ child
  pub set_at_defined :
      (key : Bytes) (value node : Node)
      → takes_keys node ≡ true
      → yaml.is_defined (yaml.set_at key value node) ≡ true
  pub sequence_lem : is_sequence yaml.sequence ≡ true
  pub sequence_defined : (node : Node) → is_sequence node ≡ true → yaml.is_defined node ≡ true
  pub sequence_items : yaml.items yaml.sequence ≡ []
  pub push_back_sequence :
      (node value : Node) → is_sequence node ≡ true → is_sequence (yaml.push_back node value) ≡ true
  pub push_back_items :
      (node value : Node)
      → is_sequence node ≡ true
      → yaml.items (yaml.push_back node value) ≡ yaml.items node ++ value ∷ []
  pub of_strings_defined : (ss : List Bytes) → yaml.is_defined (yaml.of_strings ss) ≡ true
  pub of_strings_items : (ss : List Bytes) → yaml.items (yaml.of_strings ss) ≡ map yaml.of_string ss
  pub string : (s : Bytes) → yaml.as_string (yaml.of_string s) ≡ some s
  pub bool : (b : Bool) → yaml.as_bool (yaml.of_bool b) ≡ some b
  pub uint32 : (n : ℕ) → n < 2 ^ 32 → yaml.as_uint32 (yaml.of_uint32 n) ≡ some n
  pub uint64 : (n : ℕ) → n < 2 ^ 64 → yaml.as_uint64 (yaml.of_uint64 n) ≡ some n
