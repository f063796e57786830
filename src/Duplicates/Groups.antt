-- ===== src/Duplicates/Groups.antt =====
-- The groups of files by their keys.
use mathlib.Core.List.{append-nil}
use mathlib.Core.Path.{subst}
use vaulkeeper.Duplicates.{
  DuplicateOptions, Inspection, group_digests, group_hashed, group_sized, group_sizes, push_group,
}
use vaulkeeper.Prelude.{
  ==_iff, Bool, Bool-cases, List, Option, [], ap, false, if◌then◌else◌, inl, inr, ltb, none, not,
  refl, some, sym, true, ℕ, ◌&&◌, ◌++◌, ◌==◌, ◌↔◌, ◌∙◌, ◌∷◌, ◌≡◌,
}
use vaulkeeper.Prelude.Bytes.{Bytes, bytes_eq, bytes_eq_iff, bytes_eq_self}

-- The paths in the group of a key, none where there is no such group.
abbrev pub paths_at {κ} : {K : Type κ} → (K → K → Bool) → K → List (K × List Bytes) → List Bytes
paths_at same key [] = []
paths_at same key ((k, paths) ∷ groups) =
    let rest = paths_at same key groups in if same k key then paths else rest

-- A path behind those of its group, and the other groups as they were.
module _ {κ} {K : Type κ} (same : K → K → Bool)
    (same_iff : (a b : K) → (same a b ≡ true) ↔ (a ≡ b)) where
  push-paths_at_self :
      (key : K) (path : Bytes) (groups : List (K × List Bytes))
      → paths_at same key (push_group same key path groups) ≡ paths_at same key groups ++ path ∷ []
  unfolding push_group
  push-paths_at_self key path [] = rw ((same_iff key key).1 refl) refl
  push-paths_at_self key path ((k, paths) ∷ groups) =
      split (same k key) refl (push-paths_at_self key path groups)
    where
      split :
          (b : Bool)
          → same k key ≡ b
          → paths_at same key (push_group same key path groups)
            ≡ paths_at same key groups ++ path ∷ []
          → paths_at same key (
              if b
              then (k, paths ++ path ∷ []) ∷ groups
              else (k, paths) ∷ push_group same key path groups)
            ≡ (if b then paths else paths_at same key groups) ++ path ∷ []
      split true e h = rw e refl
      split false e h = rw e h

  push-paths_at_other :
      (key other : K) (path : Bytes) (groups : List (K × List Bytes))
      → same key other ≡ false
      → paths_at same other (push_group same key path groups) ≡ paths_at same other groups
  unfolding push_group
  push-paths_at_other key other path [] ne = rw ne refl
  push-paths_at_other key other path ((k, paths) ∷ groups) ne =
      split (same k key) refl (push-paths_at_other key other path groups ne)
    where
      split :
          (b : Bool)
          → same k key ≡ b
          → paths_at same other (push_group same key path groups) ≡ paths_at same other groups
          → paths_at same other (
              if b
              then (k, paths ++ path ∷ []) ∷ groups
              else (k, paths) ∷ push_group same key path groups)
            ≡ (if same k other then paths else paths_at same other groups)
      split true e h = rw (ap (λ x. same x other) ((same_iff k key).0 e) ∙ ne) refl
      split false e h = rw h refl

abbrev pub sized : Option ℕ → ℕ → Bool
sized none size = false
sized (some n) size = n == size

abbrev pub is_hash : Option Bytes → Bytes → Bool
is_hash none digest = false
is_hash (some d) digest = bytes_eq d digest

-- The paths that pass a test, in order.
abbrev pub picked : (Bytes → Bool) → List Bytes → List Bytes
picked test [] = []
picked test (p ∷ ps) = let rest = picked test ps in if test p then p ∷ rest else rest

abbrev pick_one : Bool → Bytes → List Bytes
pick_one b p = if b then p ∷ [] else []

append-pick_one :
    (b : Bool) (xs : List Bytes) (p : Bytes) (ps : List Bytes)
    → (xs ++ pick_one b p) ++ ps ≡ xs ++ (if b then p ∷ ps else ps)
append-pick_one true [] p ps = refl
append-pick_one false [] p ps = refl
append-pick_one b (x ∷ xs) p ps = ap (◌∷◌ x) (append-pick_one b xs p ps)

module _ (measured : Bytes → Option ℕ) (hashed : Bytes → Option Bytes) (options : DuplicateOptions)
    (total : ℕ) where
  -- A size that is looked at.
  abbrev pub Qualifies : ℕ → Type 0
  Qualifies size =
      ((size == 0 && not options.include_zero_byte) ≡ false) × (ltb size options.min_size ≡ false)

  group_sized-paths_at :
      (size : ℕ) (path : Bytes) (o : Option ℕ) (groups : List (ℕ × List Bytes))
      → Qualifies size
      → paths_at ◌==◌ size (group_sized measured hashed options total path o groups)
        ≡ paths_at ◌==◌ size groups ++ pick_one (sized o size) path
  group_sized-paths_at size path none groups q = sym (append-nil (paths_at ◌==◌ size groups))
  group_sized-paths_at size path (some n) groups q = elim (Bool-cases (n == size)) [
    | inl e ↦
        subst
          (λ m.
            paths_at ◌==◌ size (group_sized measured hashed options total path (some m) groups)
            ≡ paths_at ◌==◌ size groups ++ pick_one (m == size) path)
          (sym ((==_iff n size).0 e))
          (rw q.0 (
            rw q.1
              (rw ((==_iff size size).1 refl) (push-paths_at_self ◌==◌ ==_iff size path groups))))
    | inr e ↦ rw e (
        other (n == 0 && not options.include_zero_byte) (ltb n options.min_size) e
        ∙ sym (append-nil (paths_at ◌==◌ size groups)))
  ]
    where
      other :
          (b c : Bool)
          → (n == size) ≡ false
          → paths_at ◌==◌ size
              (if b then groups else if c then groups else push_group ◌==◌ n path groups)
            ≡ paths_at ◌==◌ size groups
      other true c e = refl
      other false true e = refl
      other false false e = push-paths_at_other ◌==◌ ==_iff n size path groups e

  pub group_sizes-paths_at :
      (size : ℕ) (paths : List Bytes) (groups : List (ℕ × List Bytes))
      → Qualifies size
      → paths_at ◌==◌ size (group_sizes measured hashed options total paths groups)
        ≡ paths_at ◌==◌ size groups ++ picked (λ p. sized (measured p) size) paths
  unfolding group_sizes
  group_sizes-paths_at size [] groups q = sym (append-nil (paths_at ◌==◌ size groups))
  group_sizes-paths_at size (path ∷ paths) groups q =
      group_sizes-paths_at size paths
        (group_sized measured hashed options total path (measured path) groups) q
      ∙ ap (λ xs. xs ++ picked (λ p. sized (measured p) size) paths)
          (group_sized-paths_at size path (measured path) groups q)
      ∙ append-pick_one (sized (measured path) size) (paths_at ◌==◌ size groups) path
          (picked (λ p. sized (measured p) size) paths)

  group_hashed-paths_at :
      (digest path : Bytes) (o : Option Bytes) (s : List (Bytes × List Bytes) × Inspection)
      → paths_at bytes_eq digest (group_hashed measured hashed options total path o s).0
        ≡ paths_at bytes_eq digest s.0 ++ pick_one (is_hash o digest) path
  group_hashed-paths_at digest path none (groups, i) =
      sym (append-nil (paths_at bytes_eq digest groups))
  group_hashed-paths_at digest path (some d) (groups, i) = elim (Bool-cases (bytes_eq d digest)) [
    | inl e ↦
        subst
          (λ m.
            paths_at bytes_eq digest (push_group bytes_eq m path groups)
            ≡ paths_at bytes_eq digest groups ++ pick_one (bytes_eq m digest) path)
          (sym ((bytes_eq_iff d digest).0 e))
          (rw (bytes_eq_self digest) (push-paths_at_self bytes_eq bytes_eq_iff digest path groups))
    | inr e ↦ rw e (
        push-paths_at_other bytes_eq bytes_eq_iff d digest path groups e
        ∙ sym (append-nil (paths_at bytes_eq digest groups)))
  ]

  pub group_digests-paths_at :
      (digest : Bytes) (paths : List Bytes) (s : List (Bytes × List Bytes) × Inspection)
      → paths_at bytes_eq digest (group_digests measured hashed options total paths s).0
        ≡ paths_at bytes_eq digest s.0 ++ picked (λ p. is_hash (hashed p) digest) paths
  unfolding group_digests
  group_digests-paths_at digest [] s = sym (append-nil (paths_at bytes_eq digest s.0))
  group_digests-paths_at digest (path ∷ paths) s =
      group_digests-paths_at digest paths
        (group_hashed measured hashed options total path (hashed path) s)
      ∙ ap (λ xs. xs ++ picked (λ p. is_hash (hashed p) digest) paths)
          (group_hashed-paths_at digest path (hashed path) s)
      ∙ append-pick_one (is_hash (hashed path) digest) (paths_at bytes_eq digest s.0) path
          (picked (λ p. is_hash (hashed p) digest) paths)
