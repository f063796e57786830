-- ===== src/Scan/Totals.antt =====
-- `propagateTotals` and `TreeBuilder::build` of src/core/scan/tree_model.cpp.
pub mod Sums
pub mod Built
use vaulkeeper.Prelude.{◌%◌, ◌+◌, ◌^◌}
use vaulkeeper.Scan.Tree.{Counters, ScanNode, ScanNodes, child_and, counters, no_child, scan_node}
use vaulkeeper.Util.Interner.{StringInterner}

-- What one child adds to the sums.
abbrev pub aggregate : Counters → Counters → Counters
aggregate sums child = record {
  total_files = (sums.total_files + child.total_files) % 2 ^ 64;
  total_logical_bytes = (sums.total_logical_bytes + child.total_logical_bytes) % 2 ^ 64;
  total_size_on_disk = (sums.total_size_on_disk + child.total_size_on_disk) % 2 ^ 64;
  total_directories = (sums.total_directories + (1 + child.total_directories) % 2 ^ 64) % 2 ^ 64;
}

abbrev pub start_sums : Counters → Counters
start_sums own = record own { total_directories = 0 }

-- The sums behind a loop over children that are done.
unfoldable pub aggregate_all : Counters → ScanNodes → Counters
aggregate_all sums no_child = sums
aggregate_all sums (child_and n ns) = aggregate_all (aggregate sums (counters n)) ns

unfoldable mutual
  unfolding aggregate_all

  pub propagate_totals : ScanNode → ScanNode
  propagate_totals (scan_node name own files children) =
      let done = propagate_all children in
      scan_node name (aggregate_all (start_sums own) done) files done

  pub propagate_all : ScanNodes → ScanNodes
  propagate_all no_child = no_child
  propagate_all (child_and n ns) = child_and (propagate_totals n) (propagate_all ns)

unfoldable pub build : ScanNode × StringInterner → ScanNode
unfolding propagate_totals
build (root, st) = propagate_totals root
