-- ===== src/Duplicates/Tests.antt =====
-- Three files of five bytes, two of which have the same hash, and one of another size.
use vaulkeeper.Duplicates.{
  DuplicateCluster, DuplicateOptions, cluster_of, cluster_sizes, clusters_of, find_duplicates,
  group_digests, group_sizes, insert_cluster, push_group, sort_clusters,
}
use vaulkeeper.Duplicates.Complete.{IsReported, find_duplicates-IsReported, of_hash, of_size}
use vaulkeeper.Duplicates.Sound.{IsCluster, find_duplicates-Every}
use vaulkeeper.Prelude.{
  Every, List, Option, [], arith, false, if◌then◌else◌, map, none, refl, some, true, ℕ, ◌==◌, ◌∷◌,
  ◌≡◌,
}
use vaulkeeper.Prelude.Bytes.{Bytes, bytes_eq, codes}

abbrev sizes : Bytes → Option ℕ
sizes [] = none
sizes (c ∷ path) = some (if c == 100 then 6 else 5)

abbrev hashes : Bytes → Option Bytes
hashes path = some (if bytes_eq path (codes "b") then codes "one" else codes "two")

abbrev options : DuplicateOptions
options = record { include_zero_byte = false; min_size = 1; progress = true }

abbrev names : List Bytes
names = codes "a" ∷ codes "b" ∷ codes "c" ∷ codes "d" ∷ []

find_duplicates-Every_example :
    Every (IsCluster sizes hashes options) (find_duplicates sizes hashes names options).0
find_duplicates-Every_example = find_duplicates-Every sizes hashes options names

abbrev paths_of : DuplicateCluster → List Bytes
paths_of c = map (λ f. f.path) c.files

-- The two are found.
one_cluster :
    map paths_of (find_duplicates sizes hashes names options).0 ≡ (codes "a" ∷ codes "c" ∷ []) ∷ []
unfolding find_duplicates group_sizes push_group cluster_sizes group_digests clusters_of
    sort_clusters insert_cluster bytes_eq
one_cluster = refl

find_duplicates-IsReported_example :
    IsReported
      (cluster_of sizes hashes options 4 5
        (codes "two")
        (of_hash sizes hashes options 4 (codes "two") (of_size sizes hashes options 4 5 names)))
      (find_duplicates sizes hashes names options).0
find_duplicates-IsReported_example =
    find_duplicates-IsReported sizes hashes options names 5 (codes "two") refl (omega arith)
      (unfold bytes_eq in omega arith)
