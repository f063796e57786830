-- ===== src/Duplicates/Sound.antt =====
-- What is reported as duplicates has the same size and the same hash.
use mathlib.Core.Path.{subst}
use vaulkeeper.Duplicates.{
  DuplicateCluster, DuplicateFile, DuplicateOptions, Inspection, cluster_of, cluster_sizes,
  clusters_of, duplicate_file, find_duplicates, group_digests, group_hashed, group_sized,
  group_sizes, insert_cluster, push_group, recoverable_bytes, sort_clusters,
}
use vaulkeeper.Prelude.{
  ==_iff, Bool, Every, Every-append, List, Option, [], arith, if-cases, length, length-map, ltb,
  ltb-false, map, none, not, refl, some, sym, true, ℕ, ◌%◌, ◌&&◌, ◌+◌, ◌==◌, ◌^◌, ◌∷◌, ◌≡◌, ◌≤◌,
}
use vaulkeeper.Prelude.Bytes.{Bytes, bytes_eq, bytes_eq_iff}

-- The keys of groups are what the paths in them have.
abbrev Grouped {κ} : {K : Type κ} → (K → Bytes → Type 0) → List (K × List Bytes) → Type 0
Grouped P groups = Every (λ g. Every (P g.0) g.1) groups

push_group-Grouped {κ} :
    {K : Type κ} (P : K → Bytes → Type 0) (same : K → K → Bool)
    → ((k k' : K) → same k k' ≡ true → k ≡ k')
    → (key : K) (path : Bytes) (groups : List (K × List Bytes)) → P key path
    → Grouped P groups
    → Grouped P (push_group same key path groups)
unfolding push_group
push_group-Grouped P same sound key path [] p h = ((p, tt), tt)
push_group-Grouped P same sound key path ((k, paths) ∷ groups) p h =
    if-cases (Grouped P) (same k key)
      (λ e. (
        Every-append (P k) paths (path ∷ []) h.0
            (subst (λ k'. P k' path) (sym (sound k key e)) p, tt),
        h.1,
      ))
      (λ e. (h.0, push_group-Grouped P same sound key path groups p h.1))

insert_cluster-Every :
    (P : DuplicateCluster → Type 0) (c : DuplicateCluster) (cs : List DuplicateCluster)
    → P c
    → Every P cs
    → Every P (insert_cluster c cs)
unfolding insert_cluster
insert_cluster-Every P c [] p h = (p, tt)
insert_cluster-Every P c (d ∷ ds) p h =
    if-cases (Every P) (ltb (recoverable_bytes d) (recoverable_bytes c)) (λ e. (p, h))
      (λ e. (h.0, insert_cluster-Every P c ds p h.1))

sort_clusters-Every :
    (P : DuplicateCluster → Type 0) (cs : List DuplicateCluster)
    → Every P cs
    → Every P (sort_clusters cs)
unfolding sort_clusters
sort_clusters-Every P [] h = tt
sort_clusters-Every P (c ∷ cs) h =
    insert_cluster-Every P c (sort_clusters cs) h.0 (sort_clusters-Every P cs h.1)

module _ (measured : Bytes → Option ℕ) (hashed : Bytes → Option Bytes)
    (options : DuplicateOptions) where
  abbrev HasSize : ℕ → Bytes → Type 0
  HasSize size path = (measured path ≡ some size) × (options.min_size ≤ size)

  -- A file of a cluster is of the size and the hash that it and the cluster say.
  abbrev pub IsFileOf : DuplicateCluster → DuplicateFile → Type 0
  IsFileOf c f =
      ((f.size ≡ c.file_size) × (f.content_digest ≡ c.digest))
      × ((measured f.path ≡ some c.file_size) × (hashed f.path ≡ some c.digest))

  -- A cluster has two files at least, all of its size and of its hash, and its size is not too small.
  abbrev pub IsCluster : DuplicateCluster → Type 0
  IsCluster c =
      ((2 ≤ length c.files) × (options.min_size ≤ c.file_size)) × Every (IsFileOf c) c.files

  module _ (total : ℕ) where
    group_sized-Grouped :
        (path : Bytes) (o : Option ℕ) (groups : List (ℕ × List Bytes))
        → measured path ≡ o
        → Grouped HasSize groups
        → Grouped HasSize (group_sized measured hashed options total path o groups)
    group_sized-Grouped path none groups e h = h
    group_sized-Grouped path (some size) groups e h =
        if-cases (Grouped HasSize) (size == 0 && not options.include_zero_byte) (λ k. h)
          (λ k.
            if-cases (Grouped HasSize) (ltb size options.min_size) (λ l. h)
              (λ l.
                push_group-Grouped HasSize ◌==◌ (λ a b. (==_iff a b).0) size path groups
                  (e, ltb-false _ _ l) h))

    group_sizes-Grouped :
        (paths : List Bytes) (groups : List (ℕ × List Bytes))
        → Grouped HasSize groups
        → Grouped HasSize (group_sizes measured hashed options total paths groups)
    unfolding group_sizes
    group_sizes-Grouped [] groups h = h
    group_sizes-Grouped (path ∷ paths) groups h =
        group_sizes-Grouped paths _ (group_sized-Grouped path (measured path) groups refl h)

    -- The files of one size, below their hashes.
    abbrev HasBoth : ℕ → Bytes → Bytes → Type 0
    HasBoth size digest path = HasSize size path × (hashed path ≡ some digest)

    group_hashed-Grouped :
        (size : ℕ) (path : Bytes) (o : Option Bytes) (s : List (Bytes × List Bytes) × Inspection)
        → hashed path ≡ o
        → HasSize size path
        → Grouped (HasBoth size) s.0
        → Grouped (HasBoth size) (group_hashed measured hashed options total path o s).0
    group_hashed-Grouped size path none (groups, i) e p h = h
    group_hashed-Grouped size path (some digest) (groups, i) e p h =
        push_group-Grouped (HasBoth size) bytes_eq (λ a b. (bytes_eq_iff a b).0) digest path groups
          (p, e) h

    group_digests-Grouped :
        (size : ℕ) (paths : List Bytes) (s : List (Bytes × List Bytes) × Inspection)
        → Every (HasSize size) paths
        → Grouped (HasBoth size) s.0
        → Grouped (HasBoth size) (group_digests measured hashed options total paths s).0
    unfolding group_digests
    group_digests-Grouped size [] s all h = h
    group_digests-Grouped size (path ∷ paths) s all h =
        group_digests-Grouped size paths
          (group_hashed measured hashed options total path (hashed path) s) all.1
          (group_hashed-Grouped size path (hashed path) s refl all.0 h)

    files-Every :
        (size : ℕ) (digest : Bytes) (c : DuplicateCluster) (paths : List Bytes)
        → c.file_size ≡ size
        → c.digest ≡ digest
        → Every (HasBoth size digest) paths
        → Every (IsFileOf c) (map (duplicate_file measured hashed options total size digest) paths)
    files-Every size digest c [] s d all = tt
    files-Every size digest c (path ∷ paths) s d all = (
      ((sym s, sym d), (rw s all.0.0.0, rw d all.0.1)),
      files-Every size digest c paths s d all.1,
    )

    cluster_of-IsCluster :
        (size : ℕ) (digest : Bytes) (paths : List Bytes)
        → 2 ≤ length paths
        → Every (HasBoth size digest) paths
        → IsCluster (cluster_of measured hashed options total size digest paths)
    cluster_of-IsCluster size digest [] two all = absurd (omega arith)
    cluster_of-IsCluster size digest (path ∷ paths) two all = (
      (
        omega (
          arith,
          length-map (path ∷ paths) (duplicate_file measured hashed options total size digest),
        ),
        all.0.0.1,
      ),
      files-Every size digest (cluster_of measured hashed options total size digest (path ∷ paths))
          (path ∷ paths) refl refl all,
    )

    clusters_of-Every :
        (size : ℕ) (groups : List (Bytes × List Bytes))
        → Grouped (HasBoth size) groups
        → Every IsCluster (clusters_of measured hashed options total size groups)
    unfolding clusters_of
    clusters_of-Every size [] h = tt
    clusters_of-Every size ((digest, paths) ∷ groups) h =
        if-cases (Every IsCluster) (ltb (length paths) 2) (λ e. clusters_of-Every size groups h.1)
          (λ e. (
            cluster_of-IsCluster size digest paths (ltb-false _ _ e) h.0,
            clusters_of-Every size groups h.1,
          ))

    cluster_sizes-Every :
        (groups : List (ℕ × List Bytes)) (i : Inspection)
        → Grouped HasSize groups
        → Every IsCluster (cluster_sizes measured hashed options total groups i).0
    unfolding cluster_sizes
    cluster_sizes-Every [] i h = tt
    cluster_sizes-Every ((size, paths) ∷ groups) i h =
        if-cases (λ (r : List DuplicateCluster × Inspection). Every IsCluster r.0)
          (ltb (length paths) 2)
          (λ e.
            cluster_sizes-Every groups
              record i { inspected = (i.inspected + length paths) % 2 ^ 64 } h.1)
          (λ e.
            Every-append IsCluster
              (clusters_of measured hashed options total size
                (group_digests measured hashed options total paths ([], i)).0)
              (cluster_sizes measured hashed options total groups
                (group_digests measured hashed options total paths ([], i)).1).0
              (clusters_of-Every size (group_digests measured hashed options total paths ([], i)).0
                (group_digests-Grouped size paths ([], i) h.0 tt))
              (cluster_sizes-Every groups
                (group_digests measured hashed options total paths ([], i)).1 h.1))

  -- What is found has two files at least in each cluster, all of its size and of its hash, and no
  -- cluster of files below the least size.
  pub find_duplicates-Every :
      (candidates : List Bytes)
      → Every IsCluster (find_duplicates measured hashed candidates options).0
  unfolding find_duplicates
  find_duplicates-Every candidates = sort_clusters-Every IsCluster _ (
      cluster_sizes-Every (length candidates)
        (group_sizes measured hashed options (length candidates) candidates [])
        record { inspected = 0; reports = [] }
        (group_sizes-Grouped (length candidates) candidates [] tt))
