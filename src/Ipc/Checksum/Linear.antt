-- ===== src/Ipc/Checksum/Linear.antt =====
-- The lanes are linear in the data and in the key, so one checksum gives away the others: who has
-- seen the checksum of some data can compute that of any other data of the same length.
use native.Mathlib.Decide.{ℕ_discrete}
use vaulkeeper.Ipc.Checksum.{absorb, compute_hmac, lane_bytes, mix, word, zero_lanes}
use vaulkeeper.Ipc.Checksum.Lanes.{AllWords, absorb-AllWords, length-absorb}
use vaulkeeper.Prelude.{
  List, [], ap, arith, drop, get_or, get_or-set_ne, get_or-set_self, length, length-set, refl,
  replicate, set, suc, sym, take, zero, ℕ, ◌%◌, ◌+◌, ◌-◌, ◌<◌, ◌∙◌, ◌∷◌, ◌≡◌,
}
use vaulkeeper.Prelude.Bytes.{Bytes, from_le, from_le-to_le}

-- Run with keys `key`, `key'` and data `d`, `d'`, the lanes balance.
abbrev Balanced : List ℕ → List ℕ → List ℕ → List ℕ → Type 0
Balanced a b c e =
    (l : ℕ) → (get_or a l 0 + get_or b l 0) % word ≡ (get_or c l 0 + get_or e l 0) % word

mix_balance :
    (a b c e x x' y y' : ℕ)
    → (a + b) % word ≡ (c + e) % word
    → (mix a x y + mix b x' y') % word ≡ (mix c x' y + mix e x y') % word
unfolding mix
mix_balance a b c e x x' y y' h = omega arith

record FourLanes (a b c e : List ℕ) : Type 0 where
  four_a : length a ≡ 4
  four_b : length b ≡ 4
  four_c : length c ≡ 4
  four_e : length e ≡ 4
  balance : Balanced a b c e

round-FourLanes :
    (m x x' y y' : ℕ) (a b c e : List ℕ)
    → m < 4
    → FourLanes a b c e
    → FourLanes
        (set a m (mix (get_or a m 0) x y))
        (set b m (mix (get_or b m 0) x' y'))
        (set c m (mix (get_or c m 0) x' y))
        (set e m (mix (get_or e m 0) x y'))
round-FourLanes m x x' y y' a b c e hm f = record {
  four_a = length-set a m _ ∙ f.four_a;
  four_b = length-set b m _ ∙ f.four_b;
  four_c = length-set c m _ ∙ f.four_c;
  four_e = length-set e m _ ∙ f.four_e;
  balance = λ l. elim (ℕ_discrete m l) [
    | yes q ↦ rw (← q) (
        rw
          (
            get_or-set_self a m _ 0 (omega arith),
            get_or-set_self b m _ 0 (omega arith),
            get_or-set_self c m _ 0 (omega arith),
            get_or-set_self e m _ 0 (omega arith),
          )
          (mix_balance _ _ _ _ x x' y y' (f.balance m)))
    | no q ↦
        rw
          (
            get_or-set_ne a m l _ 0 q,
            get_or-set_ne b m l _ 0 q,
            get_or-set_ne c m l _ 0 q,
            get_or-set_ne e m l _ 0 q,
          )
          (f.balance l)
  ];
}

absorb-FourLanes :
    (key key' d d' : Bytes) (i : ℕ) (a b c e : List ℕ)
    → length d ≡ length d'
    → FourLanes a b c e
    → FourLanes
        (absorb key 32 i a d)
        (absorb key' 32 i b d')
        (absorb key 32 i c d')
        (absorb key' 32 i e d)
unfolding absorb
absorb-FourLanes key key' [] [] i a b c e n f = f
absorb-FourLanes key key' [] (x' ∷ d') i a b c e n f = absurd (omega arith)
absorb-FourLanes key key' (x ∷ d) [] i a b c e n f = absurd (omega arith)
absorb-FourLanes key key' (x ∷ d) (x' ∷ d') i a b c e n f =
    absorb-FourLanes key key' d d' (suc i) _ _ _ _ (omega arith)
      (round-FourLanes (i % 4) x x' _ _ a b c e (omega arith) f)

-- The four 64-bit words in a checksum's bytes.
abbrev read_lanes : ℕ → Bytes → List ℕ
read_lanes zero tag = []
read_lanes (suc n) tag = from_le (take 8 tag) ∷ read_lanes n (drop 8 tag)

abbrev shift_lanes : List ℕ → List ℕ → List ℕ → List ℕ
shift_lanes (t ∷ tag) (to ∷ tos) (from ∷ froms) =
    (t + to + word - from) % word ∷ shift_lanes tag tos froms
shift_lanes _ _ _ = []

abbrev blank_key : Bytes
blank_key = replicate 32 0

-- What an attacker without the key computes from the data, its checksum and the data to forge.
unfoldable pub forge : Bytes → Bytes → Bytes → Bytes
forge d tag d' = lane_bytes (
    shift_lanes (read_lanes 4 tag) (absorb blank_key 32 0 zero_lanes d')
      (absorb blank_key 32 0 zero_lanes d))

read_lanes-lane_bytes :
    (acc : List ℕ) → AllWords acc → read_lanes (length acc) (lane_bytes acc) ≡ acc
unfolding lane_bytes
read_lanes-lane_bytes [] w = refl
read_lanes-lane_bytes (a ∷ acc) w = λ i. from_le-to_le 8 a w.0 i ∷ read_lanes-lane_bytes acc w.1 i

shift-Balanced :
    (a b c e : List ℕ)
    → length a ≡ length c
    → length b ≡ length c
    → length e ≡ length c
    → AllWords c
    → AllWords e
    → Balanced a b c e
    → shift_lanes a b e ≡ c
shift-Balanced [] [] [] [] p q r w v f = refl
shift-Balanced (a ∷ a') (b ∷ b') (c ∷ c') (e ∷ e') p q r w v f = λ i.
    one i
    ∷ shift-Balanced a' b' c' e' (omega arith) (omega arith) (omega arith) w.1 v.1 (λ l. f (suc l))
        i
  where
    one : (a + b + word - e) % word ≡ c
    one = omega (arith, f 0)
shift-Balanced _ _ _ _ p q r w v f = absurd (omega arith)

-- `forge` is right for every key.
pub forge-compute_hmac :
    (key d d' : Bytes)
    → length d ≡ length d'
    → forge d (compute_hmac key d) d' ≡ compute_hmac key d'
unfolding forge compute_hmac
forge-compute_hmac key d d' n =
    let lanes = λ (k x : Bytes). absorb k 32 0 zero_lanes x in
    let words = λ (k x : Bytes). absorb-AllWords k x 32 0 zero_lanes (omega arith) in
    let four = λ (k x : Bytes). length-absorb k x 32 0 zero_lanes in
    let f =
      absorb-FourLanes key blank_key d d' 0 zero_lanes zero_lanes zero_lanes zero_lanes n (record {
        four_a = refl;
        four_b = refl;
        four_c = refl;
        four_e = refl;
        balance = λ l. refl;
      }) in
    let seen : read_lanes 4 (lane_bytes (lanes key d)) ≡ lanes key d =
      ap (λ t. read_lanes t (lane_bytes (lanes key d))) (sym (four key d))
      ∙ read_lanes-lane_bytes (lanes key d) (words key d) in
    ap lane_bytes (
      ap (λ t. shift_lanes t (lanes blank_key d') (lanes blank_key d)) seen
      ∙ shift-Balanced (lanes key d) (lanes blank_key d') (lanes key d') (lanes blank_key d)
          (four key d ∙ sym (four key d')) (four blank_key d' ∙ sym (four key d'))
          (four blank_key d ∙ sym (four key d')) (words key d') (words blank_key d) f.balance)
