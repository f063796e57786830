-- ===== src/Scan/Tree.antt =====
-- `ScanNode` of src/core/fs/file_entry.hpp, `TreeBuilder` and `findOrInsertChild` of
-- src/core/scan/tree_model.cpp. The pointer that goes down the tree is the recursion of `add_at`.
pub mod Sums
use vaulkeeper.Fs.Entry.{FileEntry, is_directory_kind}
use vaulkeeper.Prelude.{List, [], if◌then◌else◌, ℕ, ◌%◌, ◌++◌, ◌+◌, ◌==◌, ◌^◌, ◌||◌, ◌∷◌}
use vaulkeeper.Prelude.Bytes.{Bytes, bytes_eq, codes}
use vaulkeeper.Util.Interner.{StringInterner, intern, view}

-- The counters of a node, of 64 bits each.
pub record Counters : Type 0 where
  pub total_files : ℕ
  pub total_logical_bytes : ℕ
  pub total_size_on_disk : ℕ
  pub total_directories : ℕ

abbrev pub no_counters : Counters
no_counters = record {
  total_files = 0;
  total_logical_bytes = 0;
  total_size_on_disk = 0;
  total_directories = 0;
}

mutual
  pub data ScanNode : Type 0 where
    scan_node : ℕ → Counters → List FileEntry → ScanNodes → ScanNode

  pub data ScanNodes : Type 0 where
    no_child : ScanNodes
    child_and : ScanNode → ScanNodes → ScanNodes

abbrev pub counters : ScanNode → Counters
counters (scan_node _ c _ _) = c

abbrev pub node_name : ScanNode → ℕ
node_name (scan_node name _ _ _) = name

abbrev pub fresh_node : ℕ → ScanNode
fresh_node name = scan_node name no_counters [] no_child

-- `findOrInsertChild`, and what is then done with the child.
unfoldable pub at_child : ℕ → (ScanNode → ScanNode) → ScanNodes → ScanNodes
at_child name f no_child = child_and (f (fresh_node name)) no_child
at_child name f (child_and n ns) =
    let later = at_child name f ns in
    if node_name n == name then child_and (f n) ns else child_and n later

abbrev pub disk_size : FileEntry → ℕ
disk_size e = if e.size_on_disk == 0 then e.logical_size else e.size_on_disk

abbrev pub count_file : FileEntry → Counters → Counters
count_file e c = record c {
  total_files = (c.total_files + 1) % 2 ^ 64;
  total_logical_bytes = (c.total_logical_bytes + e.logical_size) % 2 ^ 64;
  total_size_on_disk = (c.total_size_on_disk + disk_size e) % 2 ^ 64;
}

-- What `add` does where the cursor has come to.
abbrev pub put_file : FileEntry → ScanNode → ScanNode
put_file e (scan_node name c files children) =
    scan_node name (count_file e c) (files ++ e ∷ []) children

abbrev pub at_children : (ScanNodes → ScanNodes) → ScanNode → ScanNode
at_children f (scan_node name c files children) = scan_node name c files (f children)

unfoldable pub add_at : List ℕ → (ScanNode → ScanNode) → ScanNode → ScanNode
unfolding at_child
add_at [] f n = f n
add_at (name ∷ names) f n = at_children (at_child name (add_at names f)) n

-- The names on the way, with their numbers.
unfoldable pub intern_all : List Bytes → StringInterner → List ℕ × StringInterner
unfolding intern
intern_all [] st = ([], st)
intern_all (name ∷ names) st =
    let (id, st') = intern name st in let (ids, st'') = intern_all names st' in (id ∷ ids, st'')

unfoldable pub without_roots : List Bytes → List Bytes
unfolding bytes_eq
without_roots [] = []
without_roots (s ∷ ss) =
    let rest = without_roots ss in
    if bytes_eq s [] || bytes_eq s (codes "/") then rest else s ∷ rest

-- `TreeBuilder::add`. How `std::filesystem::path` takes a path apart is an argument.
unfoldable pub add :
    (Bytes → List Bytes) → FileEntry → ScanNode × StringInterner → ScanNode × StringInterner
unfolding add_at intern_all without_roots view
add segments e (root, st) =
    let way = without_roots (segments (view st e.parent_path)) in
    if is_directory_kind e.kind
    then (let (ids, st') = intern_all (way ++ view st e.name ∷ []) st in
        (add_at ids (λ n. n) root, st'))
    else (let (ids, st') = intern_all way st in (add_at ids (put_file e) root, st'))

-- The constructor: the name of the root is the empty string.
unfoldable pub fresh_builder : StringInterner → ScanNode × StringInterner
unfolding intern
fresh_builder st = let (id, st') = intern [] st in (fresh_node id, st')

unfoldable pub add_all :
    (Bytes → List Bytes) → List FileEntry → ScanNode × StringInterner → ScanNode × StringInterner
unfolding add
add_all segments [] b = b
add_all segments (e ∷ es) b = add_all segments es (add segments e b)
