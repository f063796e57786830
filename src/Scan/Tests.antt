-- ===== src/Scan/Tests.antt =====
-- Totals of a small tree.
use vaulkeeper.Fs.Entry.{FileEntry, directory, empty_entry, regular}
use vaulkeeper.Prelude.{List, [], false, none, refl, some, true, ◌%◌, ◌++◌, ◌^◌, ◌∷◌, ◌≡◌}
use vaulkeeper.Prelude.Bytes.{Bytes, codes}
use vaulkeeper.Scan.Engine.{Root, Visit, run}
use vaulkeeper.Scan.Engine.Stats.{Reports, run-Reports}
use vaulkeeper.Scan.Totals.{aggregate_all, build, propagate_totals}
use vaulkeeper.Scan.Totals.Built.{build-add_all, one_file, total_of}
use vaulkeeper.Scan.Totals.Sums.{Totals, propagate_totals-Totals}
use vaulkeeper.Scan.Tree.{
  ScanNode, add, add_all, add_at, at_child, child_and, counters, disk_size, fresh_builder,
  intern_all, no_child, scan_node, without_roots,
}
use vaulkeeper.Scan.Tree.Sums.{disk_of, files_of, logical_of, nodes_below, sum_of}
use vaulkeeper.Util.Interner.{StringInterner, fresh_interner, intern, look_up_id, view}

abbrev leaf : ScanNode
leaf =
    scan_node 1
      (record {
        total_files = 2;
        total_logical_bytes = 10;
        total_size_on_disk = 12;
        total_directories = 0;
      })
      [] no_child

abbrev small_tree : ScanNode
small_tree =
    scan_node 0
      (record {
        total_files = 1;
        total_logical_bytes = 5;
        total_size_on_disk = 8;
        total_directories = 0;
      })
      [] (child_and leaf no_child)

propagate_totals-Totals_example :
    Totals
      (counters (propagate_totals small_tree))
      (sum_of files_of small_tree)
      (sum_of logical_of small_tree)
      (sum_of disk_of small_tree)
      (nodes_below small_tree)
propagate_totals-Totals_example = propagate_totals-Totals small_tree

three_files : (counters (propagate_totals small_tree)).total_files ≡ 3
unfolding propagate_totals aggregate_all
three_files = refl

-- A second `build` of the same builder counts what lies below twice.
five_files : (counters (propagate_totals (propagate_totals small_tree))).total_files ≡ 5
unfolding propagate_totals aggregate_all
five_files = refl

-- Paths of one segment.
abbrev whole : Bytes → List Bytes
whole path = path ∷ []

-- A file of 7 bytes in the folder that the handle 2 names.
abbrev seven : FileEntry
seven = record empty_entry { parent_path = 2; logical_size = 7; kind = regular }

abbrev folder : FileEntry
folder = record empty_entry { parent_path = 2; name = 2; kind = directory }

-- The names that are known at the start.
abbrev known_names : StringInterner
known_names = (intern (codes "D") (intern [] fresh_interner).1).1

build-add_all_example :
    let c = counters (build (add_all whole (seven ∷ folder ∷ []) (fresh_builder known_names))) in
    (c.total_files % 2 ^ 64 ≡ total_of one_file (seven ∷ folder ∷ []) % 2 ^ 64)
    × ((c.total_logical_bytes % 2 ^ 64
          ≡ total_of (λ e. e.logical_size) (seven ∷ folder ∷ []) % 2 ^ 64)
        × (c.total_size_on_disk % 2 ^ 64 ≡ total_of disk_size (seven ∷ folder ∷ []) % 2 ^ 64))
build-add_all_example = build-add_all whole (seven ∷ folder ∷ []) known_names

seven_bytes :
    counters (build (add_all whole (seven ∷ folder ∷ []) (fresh_builder known_names))) ≡ record {
      total_files = 1;
      total_logical_bytes = 7;
      total_size_on_disk = 7;
      total_directories = 2;
    }
unfolding build propagate_totals aggregate_all add_all add add_at at_child intern_all without_roots
    view intern look_up_id fresh_builder
seven_bytes = refl

-- A scan of one root, with a file of 7 bytes, a folder, and an error of the iterator.
abbrev a_file : Visit
a_file = record {
  cancelled = false;
  failed = false;
  parent = codes "D";
  leaf_name = codes "f";
  is_symlink = false;
  is_directory = false;
  is_regular = true;
  file_size = some 7;
  last_write = none;
}

abbrev one_root : Root
one_root = record {
  mount_point = codes "D";
  cancelled = false;
  present = true;
  visits =
      a_file
      ∷ record a_file { is_regular = false; is_directory = true; leaf_name = codes "d" }
      ∷ record a_file { failed = true }
      ∷ [];
}

abbrev slash : Bytes → Bytes → Bytes
slash a b = a ++ b'/' ∷ b

run-Reports_example : Reports (run whole slash false (one_root ∷ []) fresh_interner)
run-Reports_example = run-Reports whole slash false (one_root ∷ []) fresh_interner
