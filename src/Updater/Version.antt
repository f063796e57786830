-- ===== src/Updater/Version.antt =====
-- `splitVersion` and `newerThanCurrent` of src/updater/update_check.cpp.
pub mod Order
use vaulkeeper.Prelude.{
  Bool, List, Option, [], false, if◌then◌else◌, map, none, some, true, ℕ, ◌==◌, ◌∷◌,
}
use vaulkeeper.Prelude.Bytes.{Bytes}
use vaulkeeper.Prelude.Decimal.{from_chars, or_else}
use vaulkeeper.Prelude.Int.{ltb_ℤ, pos, ℤ}

-- What stands between the dots; a dot at the end has no part behind it.
abbrev pub start_with : ℕ → List Bytes → List Bytes
start_with c [] = (c ∷ []) ∷ []
start_with c (w ∷ ws) = (c ∷ w) ∷ ws

unfoldable pub split_dots : Bytes → List Bytes
split_dots [] = []
split_dots (c ∷ cs) = let rest = split_dots cs in if c == b'.' then [] ∷ rest else start_with c rest

abbrev pub pad_three : List ℤ → List ℤ
pad_three [] = pos 0 ∷ pos 0 ∷ pos 0 ∷ []
pad_three (a ∷ []) = a ∷ pos 0 ∷ pos 0 ∷ []
pad_three (a ∷ b ∷ []) = a ∷ b ∷ pos 0 ∷ []
pad_three (a ∷ b ∷ c ∷ rest) = a ∷ b ∷ c ∷ rest

abbrev pub part_value : Bytes → ℤ
part_value w = or_else (from_chars w) (pos 0)

unfoldable pub split_version : Bytes → List ℤ
unfolding split_dots from_chars
split_version version = pad_three (map part_value (split_dots version))

-- The loop of `newerThanCurrent`: none where it reads behind the end of `b`.
unfoldable pub newer_parts : List ℤ → List ℤ → Option Bool
newer_parts [] ys = some false
newer_parts (a ∷ xs) [] = none
newer_parts (a ∷ xs) (b ∷ ys) =
    let later = newer_parts xs ys in
    if ltb_ℤ b a then some true else if ltb_ℤ a b then some false else later

unfoldable pub newer_than_current : Bytes → Bytes → Option Bool
unfolding split_version newer_parts
newer_than_current candidate current = newer_parts (split_version candidate) (split_version current)
