-- ===== src/Scan/Tree/Sums.antt =====
-- What a tree counts in all its nodes together, in numbers without bounds.
use vaulkeeper.Prelude.{ℕ, ◌+◌}
use vaulkeeper.Scan.Tree.{Counters, ScanNode, ScanNodes, child_and, no_child, scan_node}

-- The sum of a counter over a tree.
unfoldable mutual
  pub sum_of : (Counters → ℕ) → ScanNode → ℕ
  sum_of f (scan_node name own files children) = f own + sum_of_all f children

  pub sum_of_all : (Counters → ℕ) → ScanNodes → ℕ
  sum_of_all f no_child = 0
  sum_of_all f (child_and n ns) = sum_of f n + sum_of_all f ns

-- The number of nodes below a node, and of those in a list of nodes with all below them.
unfoldable mutual
  pub nodes_below : ScanNode → ℕ
  nodes_below (scan_node name own files children) = nodes_in children

  pub nodes_in : ScanNodes → ℕ
  nodes_in no_child = 0
  nodes_in (child_and n ns) = 1 + nodes_below n + nodes_in ns

abbrev pub files_of : Counters → ℕ
files_of c = c.total_files

abbrev pub logical_of : Counters → ℕ
logical_of c = c.total_logical_bytes

abbrev pub disk_of : Counters → ℕ
disk_of c = c.total_size_on_disk
