-- ===== src/Scan/Totals/Sums.antt =====
-- What the counters hold behind `propagateTotals`, in numbers without bounds.
use vaulkeeper.Prelude.{arith, refl, ℕ, ◌%◌, ◌+◌, ◌^◌, ◌≡◌}
use vaulkeeper.Scan.Totals.{aggregate, aggregate_all, propagate_all, propagate_totals, start_sums}
use vaulkeeper.Scan.Tree.{Counters, ScanNode, ScanNodes, child_and, counters, no_child, scan_node}
use vaulkeeper.Scan.Tree.Sums.{
  disk_of, files_of, logical_of, nodes_below, nodes_in, sum_of, sum_of_all,
}

-- The counters of a tree are those sums, in 64 bits.
pub record Totals (c : Counters) (a b d e : ℕ) : Type 0 where
  pub files : c.total_files % 2 ^ 64 ≡ a % 2 ^ 64
  pub logical : c.total_logical_bytes % 2 ^ 64 ≡ b % 2 ^ 64
  pub disk : c.total_size_on_disk % 2 ^ 64 ≡ d % 2 ^ 64
  pub directories : c.total_directories % 2 ^ 64 ≡ e % 2 ^ 64

-- Sums that agree as numbers agree in 64 bits.
same_sums :
    (c : Counters) (a b d e a' b' d' e' : ℕ)
    → a ≡ a'
    → b ≡ b'
    → d ≡ d'
    → e ≡ e'
    → Totals c a b d e
    → Totals c a' b' d' e'
same_sums c a b d e a' b' d' e' p q r s t = record {
  files = omega (arith, t.files);
  logical = omega (arith, t.logical);
  disk = omega (arith, t.disk);
  directories = omega (arith, t.directories);
}

aggregate-sums :
    (sums child : Counters) (a b d e a' b' d' e' : ℕ)
    → Totals sums a b d e
    → Totals child a' b' d' e'
    → Totals (aggregate sums child) (a + a') (b + b') (d + d') (e + (1 + e'))
aggregate-sums sums child a b d e a' b' d' e' t u = record {
  files = omega (arith, t.files, u.files);
  logical = omega (arith, t.logical, u.logical);
  disk = omega (arith, t.disk, u.disk);
  directories = omega (arith, t.directories, u.directories);
}

mutual
  unfolding propagate_totals aggregate_all sum_of nodes_below

  Totals-of_node :
      (n : ScanNode)
      → Totals
          (counters (propagate_totals n))
          (sum_of files_of n)
          (sum_of logical_of n)
          (sum_of disk_of n)
          (nodes_below n)
  Totals-of_node (scan_node name own files children) =
      same_sums (counters (propagate_totals (scan_node name own files children))) _ _ _
        (0 + nodes_in children) _ _ _ (nodes_in children) refl refl refl (omega arith)
        (Totals-of_all children (start_sums own) own.total_files own.total_logical_bytes
          own.total_size_on_disk 0
          (record { files = refl; logical = refl; disk = refl; directories = refl }))

  Totals-of_all :
      (ns : ScanNodes) (sums : Counters) (a b d e : ℕ)
      → Totals sums a b d e
      → Totals
          (aggregate_all sums (propagate_all ns))
          (a + sum_of_all files_of ns)
          (b + sum_of_all logical_of ns)
          (d + sum_of_all disk_of ns)
          (e + nodes_in ns)
  Totals-of_all no_child sums a b d e t =
      same_sums sums a b d e (a + 0) (b + 0) (d + 0) (e + 0) (omega arith) (omega arith)
        (omega arith) (omega arith) t
  Totals-of_all (child_and n ns) sums a b d e t =
      same_sums _ _ _ _ _ _ _ _ _ (omega arith) (omega arith) (omega arith) (omega arith) (
        Totals-of_all ns (aggregate sums (counters (propagate_totals n))) (a + sum_of files_of n)
          (b + sum_of logical_of n) (d + sum_of disk_of n) (e + (1 + nodes_below n))
          (aggregate-sums sums (counters (propagate_totals n)) a b d e (sum_of files_of n)
            (sum_of logical_of n) (sum_of disk_of n) (nodes_below n) t (Totals-of_node n)))

-- Behind `propagateTotals` the counters of a node are, in 64 bits, the sums of its own and of all
-- counters below it, and the number of directories is that of the nodes below it.
pub propagate_totals-Totals :
    (n : ScanNode)
    → Totals
        (counters (propagate_totals n))
        (sum_of files_of n)
        (sum_of logical_of n)
        (sum_of disk_of n)
        (nodes_below n)
propagate_totals-Totals n = Totals-of_node n
