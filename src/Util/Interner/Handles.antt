-- ===== src/Util/Interner/Handles.antt =====
-- A handle stands for its name, and for no other, as long as there are less than 2 ^ 32 names.
use mathlib.Core.Option.{none-ne-some, some-injective}
use mathlib.Core.Path.{subst}
use vaulkeeper.Prelude.{
  Bool-cases, List, Option, [], ap, arith, get_or, get_or-append_ge, get_or-append_lt, inl, inr,
  length, length-append, none, refl, some, sym, ℕ, ◌%◌, ◌+◌, ◌<◌, ◌^◌, ◌↔◌, ◌∙◌, ◌∷◌, ◌≡◌, ◌≤◌, ◌⊎◌,
}
use vaulkeeper.Prelude.Bytes.{Bytes, bytes_eq, bytes_eq_iff, bytes_eq_self}
use vaulkeeper.Util.Interner.{
  StringInterner, fresh_interner, intern, intern_found, intern_new, look_up_id, view,
}

-- Every name of the index is stored at its number.
pub record IsIndexed (st : StringInterner) : Type 0 where
  pub stored :
      (value : Bytes) (id : ℕ)
      → look_up_id value st.index ≡ some id
      → (get_or st.storage id [] ≡ value) × ((1 ≤ id) × (id < length st.storage))
  pub first : 1 ≤ length st.storage

pub fresh_interner-IsIndexed : IsIndexed fresh_interner
unfolding look_up_id
fresh_interner-IsIndexed = record {
  stored = λ value id h. absurd (none-ne-some id h);
  first = omega arith;
}

-- What the new name changes in the lookup.
look_up_id-cons :
    (name value : Bytes) (n id : ℕ) (index : List (Bytes × ℕ))
    → look_up_id value ((name, n) ∷ index) ≡ some id
    → ((name ≡ value) × (n ≡ id)) ⊎ (look_up_id value index ≡ some id)
unfolding look_up_id
look_up_id-cons name value n id index h = elim (Bool-cases (bytes_eq name value)) [
  | inl e ↦ inl ((bytes_eq_iff name value).0 e, some-injective n id (rw e at h))
  | inr e ↦ inr (rw e at h)
]

intern_new-IsIndexed :
    (value : Bytes) (st : StringInterner)
    → IsIndexed st
    → length st.storage < 2 ^ 32
    → IsIndexed (intern_new value st).1
intern_new-IsIndexed value st ix room = record {
  stored = λ v id h. elim (look_up_id-cons value v (length st.storage % 2 ^ 32) id st.index h) [
    | inl (same, number) ↦ (
      get_or-append_ge st.storage (value ∷ []) id 0 [] (omega (arith, number)) ∙ same,
      (
        omega (arith, number, ix.first),
        omega (arith, number, length-append st.storage (value ∷ [])),
      ),
    )
    | inr old ↦
        let (is, (low, high)) = ix.stored v id old in
        (
          get_or-append_lt st.storage (value ∷ []) id [] high ∙ is,
          (low, omega (arith, length-append st.storage (value ∷ []))),
        )
  ];
  first = omega (arith, length-append st.storage (value ∷ []), ix.first);
}

-- What interning a name comes to: it is stored at its number, which the index knows, what was stored
-- stays where it was, and there is one name more at most.
pub record Interned (value : Bytes) (st : StringInterner) (id : ℕ) (st' : StringInterner)
    : Type 0 where
  pub indexed : IsIndexed st'
  pub known : look_up_id value st'.index ≡ some id
  pub kept : (i : ℕ) → i < length st.storage → get_or st'.storage i [] ≡ get_or st.storage i []
  pub grown :
      (length st.storage ≤ length st'.storage) × (length st'.storage ≤ length st.storage + 1)

pub intern-Interned :
    (value : Bytes) (st : StringInterner)
    → IsIndexed st
    → length st.storage < 2 ^ 32
    → Interned value st (intern value st).0 (intern value st).1
unfolding intern
intern-Interned value st ix room = looked_up (look_up_id value st.index) refl
  where
    looked_up :
        (o : Option ℕ)
        → look_up_id value st.index ≡ o
        → Interned value st (intern_found value st o).0 (intern_found value st o).1
    looked_up none h = record {
      indexed = intern_new-IsIndexed value st ix room;
      known = unfold look_up_id in rw (bytes_eq_self value) refl;
      kept = λ i l. get_or-append_lt st.storage (value ∷ []) i [] l;
      grown = (
        omega (arith, length-append st.storage (value ∷ [])),
        omega (arith, length-append st.storage (value ∷ [])),
      );
    }
    looked_up (some id) h = record {
      indexed = ix;
      known = h;
      kept = λ i l. refl;
      grown = (omega arith, omega arith);
    }

-- Names interned one behind the other.
abbrev pub intern_all : List Bytes → StringInterner → StringInterner
intern_all [] st = st
intern_all (value ∷ values) st = intern_all values (intern value st).1

-- What interning them leaves of an interner that has room for them.
record Extended (n : ℕ) (st st' : StringInterner) : Type 0 where
  indexed : IsIndexed st'
  kept : (i : ℕ) → i < length st.storage → get_or st'.storage i [] ≡ get_or st.storage i []
  size : length st'.storage ≤ length st.storage + n

intern_all-Extended :
    (values : List Bytes) (st : StringInterner)
    → IsIndexed st
    → length st.storage + length values ≤ 2 ^ 32
    → Extended (length values) st (intern_all values st)
intern_all-Extended [] st ix room = record { indexed = ix; kept = λ i l. refl; size = omega arith }
intern_all-Extended (value ∷ values) st ix room =
    let t = intern-Interned value st ix (omega arith) in
    let u = intern_all-Extended values (intern value st).1 t.indexed (omega (arith, t.grown.1)) in
    record {
      indexed = u.indexed;
      kept = λ i l. u.kept i (omega (arith, t.grown.0)) ∙ t.kept i l;
      size = omega (arith, u.size, t.grown.1);
    }

-- Whatever names were interned before a name and after it: its handle shows the name, if there are
-- less than 2 ^ 32 calls of `intern` in all.
pub view-intern :
    (before : List Bytes) (value : Bytes) (after : List Bytes)
    → length before + 1 + length after < 2 ^ 32
    → let st = intern_all before fresh_interner in
      view (intern_all after (intern value st).1) (intern value st).0 ≡ value
unfolding view
view-intern before value after room =
    let st = intern_all before fresh_interner in
    let b = intern_all-Extended before fresh_interner fresh_interner-IsIndexed (omega arith) in
    let t = intern-Interned value st b.indexed (omega (arith, b.size)) in
    let a =
      intern_all-Extended after (intern value st).1 t.indexed (omega (arith, t.grown.1, b.size)) in
    let at = t.indexed.stored value (intern value st).0 t.known in
    a.kept (intern value st).0 at.1.1 ∙ at.0

intern-known :
    (w : Bytes) (st : StringInterner) (id : ℕ)
    → look_up_id w st.index ≡ some id
    → id ≡ (intern w st).0
unfolding intern
intern-known w st id h = rw h refl

-- Two names, one interned behind the other, have the same handle exactly if they are the same, while
-- there are less than 2 ^ 32 names.
pub intern-same_iff :
    (v w : Bytes) (st : StringInterner)
    → IsIndexed st
    → length st.storage + 1 < 2 ^ 32
    → ((intern v st).0 ≡ (intern w (intern v st).1).0) ↔ (v ≡ w)
intern-same_iff v w st ix room =
    let t = intern-Interned v st ix (omega arith) in
    let u = intern-Interned w (intern v st).1 t.indexed (omega (arith, t.grown.1)) in
    let of_v = t.indexed.stored v (intern v st).0 t.known in
    let of_w = u.indexed.stored w (intern w (intern v st).1).0 u.known in
    (
      λ e.
          sym of_v.0
          ∙ sym (u.kept (intern v st).0 of_v.1.1)
          ∙ ap (λ i. get_or (intern w (intern v st).1).1.storage i []) e
          ∙ of_w.0,
      λ e.
          intern-known w (intern v st).1 (intern v st).0
            (subst (λ x. look_up_id x (intern v st).1.index ≡ some (intern v st).0) e t.known),
    )
