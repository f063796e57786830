-- ===== src/Rules/NodeTests.antt =====
-- Nodes of YAML as trees, for the runs of Rules.Tests: they have the laws of Rules.Parser.Laws.
use mathlib.Core.Option.{some-injective}
use vaulkeeper.Prelude.{
  Bool, Bool-cases, List, Option, [], ap, false, if◌then◌else◌, inl, inr, map, none, refl, some,
  sym, true, ℕ, ◌++◌, ◌∙◌, ◌∷◌, ◌≡◌, ◌≢◌,
}
use vaulkeeper.Prelude.Bytes.{Bytes, bytes_eq, bytes_eq_iff, bytes_eq_self}
use vaulkeeper.Rules.Parser.{Yaml, YamlCalls, gives, raises}
use vaulkeeper.Rules.Parser.Laws.{YamlLaws}
use vaulkeeper.Rules.Parser.RoundTrip.{KeepsNodes}

-- A map has its keys one before the other, a sequence its items one behind the other.
pub data TestNode : Type 0 where
  nothing : TestNode
  text : Bytes → TestNode
  flag : Bool → TestNode
  number : ℕ → TestNode
  texts : List Bytes → TestNode
  no_items : TestNode
  item_behind : TestNode → TestNode → TestNode
  no_keys : TestNode
  key_before : Bytes → TestNode → TestNode → TestNode

unfoldable pub node_at : Bytes → TestNode → Yaml TestNode
node_at key nothing = gives nothing
node_at key no_keys = gives nothing
node_at key (key_before k value node) = if bytes_eq k key then gives value else node_at key node
node_at key no_items = gives nothing
node_at key (item_behind node value) = gives nothing
node_at key (texts ss) = gives nothing
node_at key (text s) = raises "bad subscript"
node_at key (flag b) = raises "bad subscript"
node_at key (number n) = raises "bad subscript"

unfoldable pub takes : TestNode → Bool
takes nothing = true
takes no_keys = true
takes (key_before k value node) = true
takes _ = false

unfoldable pub put : Bytes → TestNode → TestNode → TestNode
put key value nothing = key_before key value no_keys
put key value no_keys = key_before key value no_keys
put key value (key_before k v node) = key_before key value (key_before k v node)
put key value node = node

unfoldable pub defined : TestNode → Bool
defined nothing = false
defined _ = true

unfoldable pub is_list : TestNode → Bool
is_list no_items = true
is_list (item_behind node value) = is_list node
is_list _ = false

unfoldable pub node_items : TestNode → List TestNode
node_items (item_behind node value) = node_items node ++ value ∷ []
node_items (texts ss) = map text ss
node_items _ = []

unfoldable pub given_node : Yaml TestNode → TestNode
given_node (gives node) = node
given_node (raises what) = nothing

unfoldable pub as_text : TestNode → Option Bytes
as_text (text s) = some s
as_text _ = none

unfoldable pub as_flag : TestNode → Option Bool
as_flag (flag b) = some b
as_flag _ = none

unfoldable pub as_number : TestNode → Option ℕ
as_number (number n) = some n
as_number _ = none

-- The disk holds the file that was written last.
abbrev pub test_yaml : YamlCalls TestNode TestNode
test_yaml = record {
  load_file = λ path disk. gives disk;
  at = node_at;
  is_defined = defined;
  items = node_items;
  as_string = as_text;
  as_bool = as_flag;
  as_uint32 = as_number;
  as_uint64 = as_number;
  bad_conversion = λ node. "bad conversion";
  empty = no_keys;
  sequence = no_items;
  of_string = text;
  of_bool = flag;
  of_uint32 = number;
  of_uint64 = number;
  of_strings = texts;
  set_at = put;
  child = λ key node. given_node (node_at key node);
  push_back = item_behind;
  write_file = λ path node disk. some node;
  create_directories = λ path disk. disk;
  parent_path = λ path. path;
}

node_at-put :
    (key k : Bytes) (value node : TestNode)
    → takes node ≡ true
    → node_at key (put k value node) ≡ (if bytes_eq k key then gives value else node_at key node)
unfolding node_at put takes
node_at-put key k value nothing h = refl
node_at-put key k value no_keys h = refl
node_at-put key k value (key_before j v node) h = refl
node_at-put key k value node h = absurd (cc h)

pub test_yaml-YamlLaws : YamlLaws test_yaml
unfolding takes is_list node_items as_text as_flag as_number given_node
test_yaml-YamlLaws = record {
  undefined = nothing;
  takes_keys = takes;
  is_sequence = is_list;
  empty_takes = refl;
  set_at_takes = put-takes;
  at_empty = λ key. unfold node_at in refl;
  at_set_at_self =
      λ key value node h. node_at-put key key value node h ∙ rw (bytes_eq_self key) refl;
  at_set_at_ne = λ key other value node h ne.
      node_at-put other key value node h ∙ unlike key other ne (gives value) (node_at other node);
  child_undefined = λ key node h. rw h refl;
  child_defined = λ key node child h d. rw h refl;
  set_at_defined = put-defined;
  sequence_lem = refl;
  sequence_defined = is_list-defined;
  sequence_items = refl;
  push_back_sequence = λ node value h. h;
  push_back_items = λ node value h. refl;
  of_strings_defined = λ ss. unfold defined in refl;
  of_strings_items = λ ss. refl;
  string = λ s. refl;
  bool = λ b. refl;
  uint32 = λ n l. refl;
  uint64 = λ n l. refl;
}
  where
    put-takes :
        (key : Bytes) (value node : TestNode)
        → takes node ≡ true
        → takes (put key value node) ≡ true
    put-takes key value nothing h = unfold put in refl
    put-takes key value no_keys h = unfold put in refl
    put-takes key value (key_before k v node) h = unfold put in refl
    put-takes key value node h = absurd (cc h)

    put-defined :
        (key : Bytes) (value node : TestNode)
        → takes node ≡ true
        → defined (put key value node) ≡ true
    put-defined key value nothing h = unfold put defined in refl
    put-defined key value no_keys h = unfold put defined in refl
    put-defined key value (key_before k v node) h = unfold put defined in refl
    put-defined key value node h = absurd (cc h)

    is_list-defined : (node : TestNode) → is_list node ≡ true → defined node ≡ true
    is_list-defined nothing h = absurd (cc h)
    is_list-defined node h = unfold defined in refl

    unlike :
        (k key : Bytes) → k ≢ key → (x y : Yaml TestNode) → (if bytes_eq k key then x else y) ≡ y
    unlike k key ne x y = elim (Bool-cases (bytes_eq k key)) [
      | inl e ↦ absurd (ne ((bytes_eq_iff k key).0 e))
      | inr e ↦ rw e refl
    ]

pub test_yaml-KeepsNodes : KeepsNodes test_yaml test_yaml-YamlLaws
test_yaml-KeepsNodes path node disk disk' e = ap gives (sym (some-injective node disk' e))
