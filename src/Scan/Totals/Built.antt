-- ===== src/Scan/Totals/Built.antt =====
-- The tree that `TreeBuilder` builds from entries holds their totals.
use vaulkeeper.Fs.Entry.{FileEntry, is_directory_kind}
use vaulkeeper.Prelude.{
  Bool-cases, List, [], arith, if◌then◌else◌, inl, inr, refl, ℕ, ◌%◌, ◌+◌, ◌==◌, ◌^◌, ◌∷◌, ◌≡◌,
}
use vaulkeeper.Prelude.Bytes.{Bytes}
use vaulkeeper.Scan.Totals.{build}
use vaulkeeper.Scan.Totals.Sums.{propagate_totals-Totals}
use vaulkeeper.Scan.Tree.{
  Counters, ScanNode, ScanNodes, add, add_all, add_at, at_child, child_and, count_file, counters,
  disk_size, fresh_builder, fresh_node, no_child, no_counters, node_name, put_file, scan_node,
}
use vaulkeeper.Scan.Tree.Sums.{disk_of, files_of, logical_of, sum_of, sum_of_all}
use vaulkeeper.Util.Interner.{StringInterner}

-- What an entry counts for.
abbrev pub of_files : (FileEntry → ℕ) → FileEntry → ℕ
of_files w e = if is_directory_kind e.kind then 0 else w e

abbrev pub total_of : (FileEntry → ℕ) → List FileEntry → ℕ
total_of w [] = 0
total_of w (e ∷ es) = of_files w e + total_of w es

-- A change to one node of a tree changes the sum by as much.
module _ (f : Counters → ℕ) (empty : f no_counters ≡ 0) where
  abbrev Adds : (ScanNode → ScanNode) → ℕ → Type 0
  Adds g k = (n : ScanNode) → sum_of f (g n) % 2 ^ 64 ≡ (sum_of f n + k) % 2 ^ 64

  at_child-sum :
      (name : ℕ) (g : ScanNode → ScanNode) (k : ℕ) (ns : ScanNodes)
      → Adds g k
      → sum_of_all f (at_child name g ns) % 2 ^ 64 ≡ (sum_of_all f ns + k) % 2 ^ 64
  unfolding at_child sum_of
  at_child-sum name g k no_child h = omega (arith, h (fresh_node name), empty)
  at_child-sum name g k (child_and n ns) h = elim (Bool-cases (node_name n == name)) [
    | inl e ↦ rw e (omega (arith, h n))
    | inr e ↦ rw e (omega (arith, at_child-sum name g k ns h))
  ]

  add_at-Adds :
      (names : List ℕ) (g : ScanNode → ScanNode) (k : ℕ) → Adds g k → Adds (add_at names g) k
  unfolding add_at sum_of
  add_at-Adds [] g k h n = h n
  add_at-Adds (name ∷ names) g k h (scan_node own c files children) =
      omega (arith, at_child-sum name (add_at names g) k children (add_at-Adds names g k h))

  module _ (w : FileEntry → ℕ)
      (counts : (e : FileEntry) (c : Counters)
        → f (count_file e c) % 2 ^ 64 ≡ (f c + w e) % 2 ^ 64) where
    put_file-Adds : (e : FileEntry) → Adds (put_file e) (w e)
    unfolding sum_of
    put_file-Adds e (scan_node name c files children) = omega (arith, counts e c)

    pub add-sum :
        (segments : Bytes → List Bytes) (e : FileEntry) (b : ScanNode × StringInterner)
        → sum_of f (add segments e b).0 % 2 ^ 64 ≡ (sum_of f b.0 + of_files w e) % 2 ^ 64
    unfolding add
    add-sum segments e (root, st) = elim (Bool-cases (is_directory_kind e.kind)) [
      | inl d ↦ rw d (add_at-Adds _ (λ n. n) 0 same root)
      | inr d ↦ rw d (add_at-Adds _ (put_file e) (w e) (put_file-Adds e) root)
    ]
      where
        same : Adds (λ n. n) 0
        same n = omega arith

    pub add_all-sum :
        (segments : Bytes → List Bytes) (es : List FileEntry) (b : ScanNode × StringInterner)
        → sum_of f (add_all segments es b).0 % 2 ^ 64 ≡ (sum_of f b.0 + total_of w es) % 2 ^ 64
    unfolding add_all
    add_all-sum segments [] b = omega arith
    add_all-sum segments (e ∷ es) b =
        omega (arith, add-sum segments e b, add_all-sum segments es (add segments e b))

abbrev pub one_file : FileEntry → ℕ
one_file e = 1

-- The totals at the root of a built tree are those of the entries that are no directories, in 64
-- bits: how many, their sizes, and their sizes on disk, where 0 stands for the size itself.
pub build-add_all :
    (segments : Bytes → List Bytes) (es : List FileEntry) (st : StringInterner)
    → let c = counters (build (add_all segments es (fresh_builder st))) in
      (c.total_files % 2 ^ 64 ≡ total_of one_file es % 2 ^ 64)
      × ((c.total_logical_bytes % 2 ^ 64 ≡ total_of (λ e. e.logical_size) es % 2 ^ 64)
          × (c.total_size_on_disk % 2 ^ 64 ≡ total_of disk_size es % 2 ^ 64))
unfolding build fresh_builder sum_of
build-add_all segments es st =
    let b = add_all segments es (fresh_builder st) in
    let t = propagate_totals-Totals b.0 in
    (
      omega (
        arith,
        t.files,
        add_all-sum files_of refl one_file (λ e c. omega arith) segments es (fresh_builder st),
      ),
      (
        omega (
          arith,
          t.logical,
          add_all-sum logical_of refl (λ e. e.logical_size) (λ e c. omega arith) segments es
              (fresh_builder st),
        ),
        omega (
          arith,
          t.disk,
          add_all-sum disk_of refl disk_size (λ e c. omega arith) segments es (fresh_builder st),
        ),
      ),
    )
