-- ===== src/Updater/Version/Order.antt =====
-- Versions are ordered by their first parts that differ.
use vaulkeeper.Prelude.{
  Bool, Bool-cases, List, [], ap, arith, false, inl, inr, length, ltb-false, ltb→lt, none, refl,
  some, true, ◌++◌, ◌↔◌, ◌∙◌, ◌∷◌, ◌≡◌, ◌≢◌, ◌≤◌, ◌⊎◌,
}
use vaulkeeper.Prelude.Bytes.{Bytes}
use vaulkeeper.Prelude.Int.{eq_of_parts, ltb_ℤ, neg_part, pos_part, ℤ, ◌<ℤ◌}
use vaulkeeper.Updater.Version.{newer_parts, newer_than_current, split_version}

-- The parts of `xs` are above those of `ys`: equal up to a place, where they are greater.
abbrev pub Above : List ℤ → List ℤ → Type 0
Above [] ys = ⊥
Above (a ∷ xs) [] = ⊥
Above (a ∷ xs) (b ∷ ys) = (b <ℤ a) ⊎ ((a ≡ b) × Above xs ys)

newer_parts-Above : (xs ys : List ℤ) → (newer_parts xs ys ≡ some true) ↔ Above xs ys
unfolding newer_parts
newer_parts-Above [] ys = (λ e. cc e, λ h. absurd h)
newer_parts-Above (a ∷ xs) [] = (λ e. cc e, λ h. absurd h)
newer_parts-Above (a ∷ xs) (b ∷ ys) = elim (Bool-cases (ltb_ℤ b a)) [
  | inl e ↦ rw e (λ _. inl (ltb→lt _ _ e), λ _. refl)
  | inr e ↦ rw e (elim (Bool-cases (ltb_ℤ a b)) [
    | inl f ↦ rw f (
      λ q. cc q,
      λ h. elim h [
        | inl k ↦ absurd (omega (arith, k, ltb→lt _ _ f))
        | inr k ↦ absurd (omega (arith, ltb→lt _ _ f, ap pos_part k.0, ap neg_part k.0))
      ],
    )
    | inr f ↦ rw f (
      λ q. inr (
        eq_of_parts a b (omega (arith, ltb-false _ _ e, ltb-false _ _ f)),
        (newer_parts-Above xs ys).0 q,
      ),
      λ h. elim h [
        | inl k ↦ absurd (omega (arith, k, ltb-false _ _ e))
        | inr k ↦ (newer_parts-Above xs ys).1 k.1
      ],
    )
  ])
]

Above-asym : (xs ys : List ℤ) → Above xs ys → Above ys xs → ⊥
Above-asym [] ys h k = h
Above-asym (a ∷ xs) [] h k = h
Above-asym (a ∷ xs) (b ∷ ys) (inl h) (inl k) = omega arith
Above-asym (a ∷ xs) (b ∷ ys) (inl h) (inr k) = omega (arith, ap pos_part k.0, ap neg_part k.0)
Above-asym (a ∷ xs) (b ∷ ys) (inr h) (inl k) = omega (arith, ap pos_part h.0, ap neg_part h.0)
Above-asym (a ∷ xs) (b ∷ ys) (inr h) (inr k) = Above-asym xs ys h.1 k.1

Above-trans : (xs ys zs : List ℤ) → Above xs ys → Above ys zs → Above xs zs
Above-trans [] ys zs h k = h
Above-trans (a ∷ xs) [] zs h k = absurd h
Above-trans (a ∷ xs) (b ∷ ys) [] h k = absurd k
Above-trans (a ∷ xs) (b ∷ ys) (c ∷ zs) (inl h) (inl k) = inl (omega arith)
Above-trans (a ∷ xs) (b ∷ ys) (c ∷ zs) (inl h) (inr k) =
    inl (omega (arith, ap pos_part k.0, ap neg_part k.0))
Above-trans (a ∷ xs) (b ∷ ys) (c ∷ zs) (inr h) (inl k) =
    inl (omega (arith, ap pos_part h.0, ap neg_part h.0))
Above-trans (a ∷ xs) (b ∷ ys) (c ∷ zs) (inr h) (inr k) =
    inr (h.0 ∙ k.0, Above-trans xs ys zs h.1 k.1)

-- A version is reported as newer exactly if its parts are above those of the current one.
pub newer_than_current-Above :
    (a b : Bytes) → (newer_than_current a b ≡ some true) ↔ Above (split_version a) (split_version b)
unfolding newer_than_current
newer_than_current-Above a b = newer_parts-Above (split_version a) (split_version b)

-- No two versions are each newer than the other.
newer_than_current_asym :
    (a b : Bytes) → newer_than_current a b ≡ some true → newer_than_current b a ≢ some true
newer_than_current_asym a b h k =
    Above-asym (split_version a) (split_version b) ((newer_than_current-Above a b).0 h)
      ((newer_than_current-Above b a).0 k)

-- What is newer than a newer version is newer.
newer_than_current_trans :
    (a b c : Bytes)
    → newer_than_current a b ≡ some true
    → newer_than_current b c ≡ some true
    → newer_than_current a c ≡ some true
newer_than_current_trans a b c h k = (newer_than_current-Above a c).1 (
    Above-trans (split_version a) (split_version b) (split_version c)
      ((newer_than_current-Above a b).0 h) ((newer_than_current-Above b c).0 k))

-- What is newer than a newer version is newer, and no older one of them is newer in turn.
pub newer_than_current_order :
    (a b c : Bytes)
    → newer_than_current a b ≡ some true
    → newer_than_current b c ≡ some true
    → (newer_than_current a c ≡ some true)
      × ((newer_than_current b a ≢ some true) × (newer_than_current c a ≢ some true))
newer_than_current_order a b c h k =
    let l = newer_than_current_trans a b c h k in
    (l, (newer_than_current_asym a b h, newer_than_current_asym a c l))

newer_parts-append : (xs : List ℤ) (z : ℤ) (zs : List ℤ) → newer_parts (xs ++ z ∷ zs) xs ≡ none
unfolding newer_parts
newer_parts-append [] z zs = refl
newer_parts-append (a ∷ xs) z zs =
    let e : ltb_ℤ a a ≡ false = ground arith in rw (e, newer_parts-append xs z zs)

newer_parts_defined :
    (xs ys : List ℤ) → length xs ≤ length ys → (r : Bool) × (newer_parts xs ys ≡ some r)
unfolding newer_parts
newer_parts_defined [] ys h = (false, refl)
newer_parts_defined (a ∷ xs) [] h = absurd (omega arith)
newer_parts_defined (a ∷ xs) (b ∷ ys) h = elim (Bool-cases (ltb_ℤ b a)) [
  | inl e ↦ (true, rw e refl)
  | inr e ↦ elim (Bool-cases (ltb_ℤ a b)) [
    | inl f ↦ (false, rw (e, f) refl)
    | inr f ↦ let (r, q) = newer_parts_defined xs ys (omega arith) in (r, rw (e, f) q)
  ]
]

-- The comparison stays inside both versions if the candidate has no more parts than the current one.
pub newer_than_current_inside :
    (a b : Bytes)
    → length (split_version a) ≤ length (split_version b)
    → (r : Bool) × (newer_than_current a b ≡ some r)
unfolding newer_than_current
newer_than_current_inside a b = newer_parts_defined (split_version a) (split_version b)

-- It reads behind the end of the current version if the candidate only adds parts to that.
pub newer_than_current_beyond :
    (a b : Bytes) (z : ℤ) (zs : List ℤ)
    → split_version a ≡ split_version b ++ z ∷ zs
    → newer_than_current a b ≡ none
unfolding newer_than_current
newer_than_current_beyond a b z zs e = rw e (newer_parts-append (split_version b) z zs)
