-- ===== src/Util/Interner.antt =====
-- `StringInterner` of src/core/util/string_intern.cpp: names and the numbers that stand for them. The
-- hash map is an association list; the lock has no part in it.
pub mod Handles
use vaulkeeper.Prelude.{
  List, Option, [], get_or, if◌then◌else◌, length, none, some, ℕ, ◌%◌, ◌++◌, ◌+◌, ◌-◌, ◌^◌, ◌∷◌,
}
use vaulkeeper.Prelude.Bytes.{Bytes, bytes_eq}

pub record StringInterner : Type 0 where
  pub index : List (Bytes × ℕ)
  pub storage : List Bytes
  pub bytes : ℕ

-- The place 0 holds no name: its number is that of an invalid handle.
abbrev pub fresh_interner : StringInterner
fresh_interner = record { index = []; storage = [] ∷ []; bytes = 0 }

unfoldable pub look_up_id : Bytes → List (Bytes × ℕ) → Option ℕ
unfolding bytes_eq
look_up_id value [] = none
look_up_id value ((name, id) ∷ index) =
    let rest = look_up_id value index in if bytes_eq name value then some id else rest

abbrev pub intern_new : Bytes → StringInterner → ℕ × StringInterner
intern_new value st =
    let id = length st.storage % 2 ^ 32 in
    (
      id,
      record {
        index = (value, id) ∷ st.index;
        storage = st.storage ++ value ∷ [];
        bytes = st.bytes + length value;
      },
    )

-- The handle of a name that was looked up.
abbrev pub intern_found : Bytes → StringInterner → Option ℕ → ℕ × StringInterner
intern_found value st none = intern_new value st
intern_found value st (some id) = (id, st)

unfoldable pub intern : Bytes → StringInterner → ℕ × StringInterner
unfolding look_up_id
intern value st = intern_found value st (look_up_id value st.index)

unfoldable pub view : StringInterner → ℕ → Bytes
view st id = get_or st.storage id []

unfoldable pub interned_count : StringInterner → ℕ
interned_count st = length st.storage - 1
