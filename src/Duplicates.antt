-- ===== src/Duplicates.antt =====
-- `findDuplicates` of src/core/duplicates/duplicate_finder.cpp. The sizes of files and their hashes are
-- arguments, none where they cannot be read. The hash maps are lists of their groups in the order in
-- which their keys came up, for which there is no promise in the code.
pub mod Sound
pub mod Groups
pub mod Complete
mod Tests
use vaulkeeper.Prelude.{
  Bool, List, Option, [], if◌then◌else◌, leb, length, ltb, map, none, not, some, ℕ, ◌%◌, ◌&&◌, ◌*◌,
  ◌++◌, ◌+◌, ◌-◌, ◌==◌, ◌^◌, ◌∷◌,
}
use vaulkeeper.Prelude.Bytes.{Bytes, bytes_eq}

pub record DuplicateFile : Type 0 where
  pub path : Bytes
  pub size : ℕ
  pub content_digest : Bytes

pub record DuplicateCluster : Type 0 where
  pub file_size : ℕ
  pub digest : Bytes
  pub files : List DuplicateFile

pub record DuplicateOptions : Type 0 where
  pub include_zero_byte : Bool
  pub min_size : ℕ
  -- Whether there is a handler of progress.
  pub progress : Bool

unfoldable pub recoverable_bytes : DuplicateCluster → ℕ
recoverable_bytes c =
    if leb (length c.files) 1 then 0 else c.file_size * (length c.files - 1) % 2 ^ 64

-- `groups[key].push_back(path)`.
unfoldable pub push_group {κ} :
    {K : Type κ} → (K → K → Bool) → K → Bytes → List (K × List Bytes) → List (K × List Bytes)
push_group same key path [] = (key, path ∷ []) ∷ []
push_group same key path ((k, paths) ∷ groups) =
    let rest = push_group same key path groups in
    if same k key then (k, paths ++ path ∷ []) ∷ groups else (k, paths) ∷ rest

-- The reports of progress, as how many were inspected of how many, and that number.
pub record Inspection : Type 0 where
  pub inspected : ℕ
  pub reports : List (ℕ × ℕ)

-- `std::sort` by what is recoverable, the most first; clusters that agree in that keep their order here.
unfoldable pub insert_cluster : DuplicateCluster → List DuplicateCluster → List DuplicateCluster
unfolding recoverable_bytes
insert_cluster c [] = c ∷ []
insert_cluster c (d ∷ ds) =
    let later = insert_cluster c ds in
    if ltb (recoverable_bytes d) (recoverable_bytes c) then c ∷ (d ∷ ds) else d ∷ later

unfoldable pub sort_clusters : List DuplicateCluster → List DuplicateCluster
unfolding insert_cluster
sort_clusters [] = []
sort_clusters (c ∷ cs) = insert_cluster c (sort_clusters cs)

module _ (measured : Bytes → Option ℕ) (hashed : Bytes → Option Bytes) (options : DuplicateOptions)
    (total : ℕ) where
  abbrev pub group_sized : Bytes → Option ℕ → List (ℕ × List Bytes) → List (ℕ × List Bytes)
  group_sized path none groups = groups
  group_sized path (some size) groups =
      if size == 0 && not options.include_zero_byte
      then groups
      else if ltb size options.min_size
      then groups
      else push_group ◌==◌ size path groups

  unfoldable pub group_sizes : List Bytes → List (ℕ × List Bytes) → List (ℕ × List Bytes)
  unfolding push_group
  group_sizes [] groups = groups
  group_sizes (path ∷ paths) groups = group_sizes paths (group_sized path (measured path) groups)

  abbrev pub inspect_one : Inspection → Inspection
  inspect_one i = record i { inspected = (i.inspected + 1) % 2 ^ 64 }

  abbrev pub report_progress : Inspection → Inspection
  report_progress i =
      if options.progress then record i { reports = i.reports ++ (i.inspected, total) ∷ [] } else i

  abbrev pub group_hashed :
      Bytes
      → Option Bytes
      → List (Bytes × List Bytes) × Inspection
      → List (Bytes × List Bytes) × Inspection
  group_hashed path none (groups, i) = (groups, inspect_one i)
  group_hashed path (some digest) (groups, i) =
      (push_group bytes_eq digest path groups, report_progress (inspect_one i))

  unfoldable pub group_digests :
      List Bytes → List (Bytes × List Bytes) × Inspection → List (Bytes × List Bytes) × Inspection
  unfolding push_group bytes_eq
  group_digests [] s = s
  group_digests (path ∷ paths) s = group_digests paths (group_hashed path (hashed path) s)

  abbrev pub duplicate_file : ℕ → Bytes → Bytes → DuplicateFile
  duplicate_file size digest path = record { path = path; size = size; content_digest = digest }

  abbrev pub cluster_of : ℕ → Bytes → List Bytes → DuplicateCluster
  cluster_of size digest paths = record {
    file_size = size;
    digest = digest;
    files = map (duplicate_file size digest) paths;
  }

  -- The clusters of one size.
  unfoldable pub clusters_of : ℕ → List (Bytes × List Bytes) → List DuplicateCluster
  clusters_of size [] = []
  clusters_of size ((digest, paths) ∷ groups) =
      let rest = clusters_of size groups in
      if ltb (length paths) 2 then rest else cluster_of size digest paths ∷ rest

  unfoldable pub cluster_sizes :
      List (ℕ × List Bytes) → Inspection → List DuplicateCluster × Inspection
  unfolding group_digests clusters_of
  cluster_sizes [] i = ([], i)
  cluster_sizes ((size, paths) ∷ groups) i =
      let alone =
        cluster_sizes groups record i { inspected = (i.inspected + length paths) % 2 ^ 64 } in
      let hashes = group_digests paths ([], i) in
      let rest = cluster_sizes groups hashes.1 in
      if ltb (length paths) 2 then alone else (clusters_of size hashes.0 ++ rest.0, rest.1)

unfoldable pub find_duplicates :
    (Bytes → Option ℕ)
    → (Bytes → Option Bytes)
    → List Bytes
    → DuplicateOptions
    → List DuplicateCluster × List (ℕ × ℕ)
unfolding group_sizes cluster_sizes sort_clusters
find_duplicates measured hashed candidates options =
    let total = length candidates in
    let found_clusters =
      cluster_sizes measured hashed options total
        (group_sizes measured hashed options total candidates [])
        record { inspected = 0; reports = [] } in
    (sort_clusters found_clusters.0, found_clusters.1.reports)
