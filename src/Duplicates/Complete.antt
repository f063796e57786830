-- ===== src/Duplicates/Complete.antt =====
-- All files of one size and one hash come to one cluster.
use mathlib.Core.Path.{subst}
use vaulkeeper.Duplicates.{
  DuplicateCluster, DuplicateOptions, Inspection, cluster_of, cluster_sizes, clusters_of,
  find_duplicates, group_digests, group_sizes, insert_cluster, recoverable_bytes, sort_clusters,
}
use vaulkeeper.Duplicates.Groups.{
  group_digests-paths_at, group_sizes-paths_at, is_hash, paths_at, picked, sized,
}
use vaulkeeper.Prelude.{
  ==_iff, Bool, List, Option, [], ap, arith, false, if-cases, if◌then◌else◌, inl, inr, length, ltb,
  not, refl, suc, sym, true, ℕ, ◌%◌, ◌&&◌, ◌++◌, ◌+◌, ◌==◌, ◌^◌, ◌∷◌, ◌≡◌, ◌≤◌, ◌⊎◌,
}
use vaulkeeper.Prelude.Bytes.{Bytes, bytes_eq, bytes_eq_iff}

abbrev pub IsReported : DuplicateCluster → List DuplicateCluster → Type 0
IsReported c [] = ⊥
IsReported c (d ∷ ds) = (c ≡ d) ⊎ IsReported c ds

IsReported-append_left :
    (c : DuplicateCluster) (cs ds : List DuplicateCluster)
    → IsReported c cs
    → IsReported c (cs ++ ds)
IsReported-append_left c [] ds h = elim h [ ]
IsReported-append_left c (d ∷ cs) ds (inl h) = inl h
IsReported-append_left c (d ∷ cs) ds (inr h) = inr (IsReported-append_left c cs ds h)

IsReported-append_right :
    (c : DuplicateCluster) (cs ds : List DuplicateCluster)
    → IsReported c ds
    → IsReported c (cs ++ ds)
IsReported-append_right c [] ds h = h
IsReported-append_right c (d ∷ cs) ds h = inr (IsReported-append_right c cs ds h)

insert_cluster_self :
    (c : DuplicateCluster) (cs : List DuplicateCluster) → IsReported c (insert_cluster c cs)
unfolding insert_cluster
insert_cluster_self c [] = inl refl
insert_cluster_self c (d ∷ ds) =
    if-cases (IsReported c) (ltb (recoverable_bytes d) (recoverable_bytes c)) (λ e. inl refl)
      (λ e. inr (insert_cluster_self c ds))

insert_cluster-other :
    (c d : DuplicateCluster) (cs : List DuplicateCluster)
    → IsReported c cs
    → IsReported c (insert_cluster d cs)
unfolding insert_cluster
insert_cluster-other c d [] h = elim h [ ]
insert_cluster-other c d (e ∷ es) h =
    if-cases (IsReported c) (ltb (recoverable_bytes e) (recoverable_bytes d)) (λ k. inr h)
      (λ k. elim h [ inl same ↦ inl same | inr later ↦ inr (insert_cluster-other c d es later) ])

sort_clusters-IsReported :
    (c : DuplicateCluster) (cs : List DuplicateCluster)
    → IsReported c cs
    → IsReported c (sort_clusters cs)
unfolding sort_clusters
sort_clusters-IsReported c [] h = elim h [ ]
sort_clusters-IsReported c (d ∷ cs) (inl same) =
    subst (λ e. IsReported c (insert_cluster e (sort_clusters cs))) same
      (insert_cluster_self c (sort_clusters cs))
sort_clusters-IsReported c (d ∷ cs) (inr later) =
    insert_cluster-other c d (sort_clusters cs) (sort_clusters-IsReported c cs later)

length-picked : (test : Bytes → Bool) (ps : List Bytes) → length (picked test ps) ≤ length ps
length-picked test [] = omega arith
length-picked test (p ∷ ps) =
    if-cases (λ (qs : List Bytes). length qs ≤ suc (length ps)) (test p)
      (λ e. omega (arith, length-picked test ps)) (λ e. omega (arith, length-picked test ps))

at_least_two : (n : ℕ) → 2 ≤ n → ltb n 2 ≡ false
at_least_two n h = ground arith

module _ (measured : Bytes → Option ℕ) (hashed : Bytes → Option Bytes) (options : DuplicateOptions)
    (total : ℕ) where
  clusters_of-IsReported :
      (size : ℕ) (digest : Bytes) (groups : List (Bytes × List Bytes))
      → 2 ≤ length (paths_at bytes_eq digest groups)
      → IsReported
          (cluster_of measured hashed options total size digest (paths_at bytes_eq digest groups))
          (clusters_of measured hashed options total size groups)
  unfolding clusters_of
  clusters_of-IsReported size digest [] two = absurd (omega arith)
  clusters_of-IsReported size digest ((d, paths) ∷ groups) two =
      split (bytes_eq d digest) refl two (clusters_of-IsReported size digest groups)
    where
      split :
          (b : Bool)
          → bytes_eq d digest ≡ b
          → 2 ≤ length (if b then paths else paths_at bytes_eq digest groups)
          → (2 ≤ length (paths_at bytes_eq digest groups)
              → IsReported
                  (cluster_of measured hashed options total size digest
                    (paths_at bytes_eq digest groups))
                  (clusters_of measured hashed options total size groups))
          → IsReported
              (cluster_of measured hashed options total size digest
                (if b then paths else paths_at bytes_eq digest groups))
              (if ltb (length paths) 2
                then clusters_of measured hashed options total size groups
                else cluster_of measured hashed options total size d paths
                  ∷ clusters_of measured hashed options total size groups)
      split true e h later = rw (at_least_two (length paths) h) (
          inl (
            ap (λ x. cluster_of measured hashed options total size x paths)
              (sym ((bytes_eq_iff d digest).0 e))))
      split false e h later =
          if-cases
            (IsReported (
              cluster_of measured hashed options total size digest
                (paths_at bytes_eq digest groups)))
            (ltb (length paths) 2) (λ k. later h) (λ k. inr (later h))

  -- The paths of a hash among some.
  abbrev pub of_hash : Bytes → List Bytes → List Bytes
  of_hash digest ps = picked (λ p. is_hash (hashed p) digest) ps

  -- The paths of a size.
  abbrev pub of_size : ℕ → List Bytes → List Bytes
  of_size size ps = picked (λ p. sized (measured p) size) ps

  clusters_of-group_digests :
      (size : ℕ) (digest : Bytes) (paths : List Bytes) (i : Inspection)
      → 2 ≤ length (of_hash digest paths)
      → IsReported (cluster_of measured hashed options total size digest (of_hash digest paths)) (
          clusters_of measured hashed options total size
            (group_digests measured hashed options total paths ([], i)).0)
  clusters_of-group_digests size digest paths i two =
      subst
        (λ ps.
          2 ≤ length ps
          → IsReported (cluster_of measured hashed options total size digest ps) (
              clusters_of measured hashed options total size
                (group_digests measured hashed options total paths ([], i)).0))
        (group_digests-paths_at measured hashed options total digest paths ([], i))
        (clusters_of-IsReported size digest
          (group_digests measured hashed options total paths ([], i)).0)
        two

  cluster_sizes-IsReported :
      (size : ℕ) (digest : Bytes) (groups : List (ℕ × List Bytes)) (i : Inspection)
      → 2 ≤ length (of_hash digest (paths_at ◌==◌ size groups))
      → IsReported
          (cluster_of measured hashed options total size digest
            (of_hash digest (paths_at ◌==◌ size groups)))
          (cluster_sizes measured hashed options total groups i).0
  unfolding cluster_sizes
  cluster_sizes-IsReported size digest [] i two = absurd (omega arith)
  cluster_sizes-IsReported size digest ((n, paths) ∷ groups) i two =
      split (n == size) refl two (cluster_sizes-IsReported size digest groups)
    where
      hashes : List (Bytes × List Bytes) × Inspection
      hashes = group_digests measured hashed options total paths ([], i)

      wanted : List Bytes → DuplicateCluster
      wanted ps = cluster_of measured hashed options total size digest (of_hash digest ps)

      split :
          (b : Bool)
          → (n == size) ≡ b
          → 2 ≤ length (of_hash digest (if b then paths else paths_at ◌==◌ size groups))
          → ((i' : Inspection)
              → 2 ≤ length (of_hash digest (paths_at ◌==◌ size groups))
              → IsReported
                  (wanted (paths_at ◌==◌ size groups))
                  (cluster_sizes measured hashed options total groups i').0)
          → IsReported
              (wanted (if b then paths else paths_at ◌==◌ size groups))
              (cluster_sizes measured hashed options total ((n, paths) ∷ groups) i).0
      split true e h later =
          rw
            (at_least_two (length paths)
              (omega (arith, length-picked (λ p. is_hash (hashed p) digest) paths)))
            (IsReported-append_left (wanted paths)
              (clusters_of measured hashed options total n hashes.0)
              (cluster_sizes measured hashed options total groups hashes.1).0
              (subst
                (λ m.
                  IsReported (wanted paths) (clusters_of measured hashed options total m hashes.0))
                (sym ((==_iff n size).0 e)) (clusters_of-group_digests size digest paths i h)))
      split false e h later =
          if-cases
            (λ (r : List DuplicateCluster × Inspection).
              IsReported (wanted (paths_at ◌==◌ size groups)) r.0)
            (ltb (length paths) 2)
            (λ k. later record i { inspected = (i.inspected + length paths) % 2 ^ 64 } h)
            (λ k.
              IsReported-append_right (wanted (paths_at ◌==◌ size groups))
                (clusters_of measured hashed options total n hashes.0)
                (cluster_sizes measured hashed options total groups hashes.1).0 (later hashes.1 h))

-- All candidates of one size and one hash are in one cluster together, in their order, if there are two
-- at least and the options do not leave their size out.
pub find_duplicates-IsReported :
    (measured : Bytes → Option ℕ) (hashed : Bytes → Option Bytes) (options : DuplicateOptions)
    (candidates : List Bytes) (size : ℕ) (digest : Bytes)
    → (size == 0 && not options.include_zero_byte) ≡ false
    → options.min_size ≤ size
    → 2
      ≤ length (
          of_hash measured hashed options
            (length candidates)
            digest
            (of_size measured hashed options (length candidates) size candidates))
    → IsReported
        (cluster_of measured hashed options (length candidates) size digest (
          of_hash measured hashed options
            (length candidates)
            digest
            (of_size measured hashed options (length candidates) size candidates)))
        (find_duplicates measured hashed candidates options).0
unfolding find_duplicates
find_duplicates-IsReported measured hashed options candidates size digest kept large two =
    let total = length candidates in
    let groups = group_sizes measured hashed options total candidates [] in
    sort_clusters-IsReported _
      (cluster_sizes measured hashed options total groups record { inspected = 0; reports = [] }).0
      (subst
        (λ ps.
          2 ≤ length (of_hash measured hashed options total digest ps)
          → IsReported
              (cluster_of measured hashed options total size digest
                (of_hash measured hashed options total digest ps))
              (cluster_sizes measured hashed options total groups
                record { inspected = 0; reports = [] }).0)
        (group_sizes-paths_at measured hashed options total size candidates []
          (kept, large_test size options.min_size large))
        (cluster_sizes-IsReported measured hashed options total size digest groups
          record { inspected = 0; reports = [] })
        two)
  where
    large_test : (m n : ℕ) → n ≤ m → ltb m n ≡ false
    large_test m n h = ground arith
