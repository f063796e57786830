-- ===== src/Updater/Tests.antt =====
-- Versions at concrete inputs.
use vaulkeeper.Prelude.{
  Bool, [], arith, length, none, refl, some, true, ◌++◌, ◌↔◌, ◌∷◌, ◌≡◌, ◌≢◌, ◌≤◌,
}
use vaulkeeper.Prelude.Bytes.{codes}
use vaulkeeper.Prelude.Decimal.{digits_of, digits_value, from_chars}
use vaulkeeper.Prelude.Int.{pos}
use vaulkeeper.Updater.Version.{newer_parts, newer_than_current, split_dots, split_version}
use vaulkeeper.Updater.Version.Order.{
  Above, newer_than_current-Above, newer_than_current_beyond, newer_than_current_inside,
  newer_than_current_order,
}

newer_than_current-Above_example :
    (newer_than_current (codes "1.10.0") (codes "1.9") ≡ some true)
    ↔ Above (split_version (codes "1.10.0")) (split_version (codes "1.9"))
newer_than_current-Above_example = newer_than_current-Above (codes "1.10.0") (codes "1.9")

ten_after_nine : newer_than_current (codes "1.10.0") (codes "1.9") ≡ some true
unfolding newer_than_current split_version split_dots from_chars digits_of digits_value newer_parts
ten_after_nine = refl

nine_after_one : newer_than_current (codes "1.9") (codes "1") ≡ some true
unfolding newer_than_current split_version split_dots from_chars digits_of digits_value newer_parts
nine_after_one = refl

newer_than_current_order_example :
    (newer_than_current (codes "1.10.0") (codes "1") ≡ some true)
    × ((newer_than_current (codes "1.9") (codes "1.10.0") ≢ some true)
        × (newer_than_current (codes "1") (codes "1.10.0") ≢ some true))
newer_than_current_order_example =
    newer_than_current_order (codes "1.10.0") (codes "1.9") (codes "1") ten_after_nine
      nine_after_one

four_parts : split_version (codes "1.2.3.4") ≡ split_version (codes "1.2.3") ++ pos 4 ∷ []
unfolding split_version split_dots from_chars digits_of digits_value
four_parts = refl

newer_than_current_beyond_example : newer_than_current (codes "1.2.3.4") (codes "1.2.3") ≡ none
newer_than_current_beyond_example =
    newer_than_current_beyond (codes "1.2.3.4") (codes "1.2.3") (pos 4) [] four_parts

three_parts : length (split_version (codes "1.2")) ≤ length (split_version (codes "1.2.3"))
unfolding split_version split_dots from_chars
three_parts = omega arith

newer_than_current_inside_example :
    (r : Bool) × (newer_than_current (codes "1.2") (codes "1.2.3") ≡ some r)
newer_than_current_inside_example =
    newer_than_current_inside (codes "1.2") (codes "1.2.3") three_parts
