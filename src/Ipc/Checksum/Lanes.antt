-- ===== src/Ipc/Checksum/Lanes.antt =====
-- How one changed byte shows in the lanes.
use native.Mathlib.Decide.{ℕ_discrete}
use vaulkeeper.Ipc.Checksum.{absorb, compute_hmac, lane_bytes, mix, word, zero_lanes}
use vaulkeeper.Prelude.{
  List, [], arith, get_or, get_or-set_ne, get_or-set_self, length, length-set, refl, set, suc, sym,
  zero, ℕ, ◌%◌, ◌*◌, ◌<◌, ◌∙◌, ◌∷◌, ◌≡◌, ◌≢◌,
}
use vaulkeeper.Prelude.Bytes.{AllBytes, Bytes, to_le-append_injective, to_le_injective}

-- The factor of a lane is odd, so a round forgets nothing of the lane.
mix_injective : (a b d k : ℕ) → a < word → b < word → mix a d k ≡ mix b d k → a ≡ b
unfolding mix
mix_injective a b d k p q h = omega arith

mix_byte_injective : (a d e k : ℕ) → d < 256 → e < 256 → mix a d k ≡ mix a e k → d ≡ e
unfolding mix
mix_byte_injective a d e k p q h = omega arith

abbrev pub AllWords : List ℕ → Type 0
AllWords [] = Unit
AllWords (a ∷ acc) = (a < word) × AllWords acc

get_or-lt-word : (acc : List ℕ) (l : ℕ) → AllWords acc → get_or acc l 0 < word
get_or-lt-word [] l h = omega arith
get_or-lt-word (a ∷ acc) zero h = h.0
get_or-lt-word (a ∷ acc) (suc l) h = get_or-lt-word acc l h.1

set-AllWords : (acc : List ℕ) (l v : ℕ) → AllWords acc → v < word → AllWords (set acc l v)
set-AllWords [] l v h p = tt
set-AllWords (a ∷ acc) zero v h p = (p, h.1)
set-AllWords (a ∷ acc) (suc l) v h p = (h.0, set-AllWords acc l v h.1 p)

mix-lt-word : (a d k : ℕ) → mix a d k < word
unfolding mix
mix-lt-word a d k = omega arith

-- Both lists of lanes are four words, and they differ at lane `l`.
record Differ (l : ℕ) (acc acc' : List ℕ) : Type 0 where
  four : length acc ≡ 4
  four' : length acc' ≡ 4
  words : AllWords acc
  words' : AllWords acc'
  here : l < 4
  apart : get_or acc l 0 ≢ get_or acc' l 0

-- What a round leaves at a lane, seen from the values that two lists end with there.
round_injective :
    (l m byte k : ℕ) (acc acc' : List ℕ)
    → m < 4
    → Differ l acc acc'
    → get_or (set acc m (mix (get_or acc m 0) byte k)) l 0
      ≡ get_or (set acc' m (mix (get_or acc' m 0) byte k)) l 0
    → get_or acc l 0 ≡ get_or acc' l 0
round_injective l m byte k acc acc' hm d e = elim (ℕ_discrete m l) [
  | yes q ↦
      let at_m =
        sym (get_or-set_self acc m _ 0 (omega arith))
        ∙ rw (← q) at e
        ∙ get_or-set_self acc' m _ 0 (omega arith) in
      rw (← q) (
        mix_injective _ _ byte k (get_or-lt-word acc m d.words) (get_or-lt-word acc' m d.words')
          at_m)
  | no q ↦ sym (get_or-set_ne acc m l _ 0 q) ∙ e ∙ get_or-set_ne acc' m l _ 0 q
]

-- A round on the same byte keeps two different lists of lanes different.
round-Differ :
    (l m byte k : ℕ) (acc acc' : List ℕ)
    → m < 4
    → Differ l acc acc'
    → Differ l (set acc m (mix (get_or acc m 0) byte k)) (set acc' m (mix (get_or acc' m 0) byte k))
round-Differ l m byte k acc acc' hm d = record {
  four = length-set acc m _ ∙ d.four;
  four' = length-set acc' m _ ∙ d.four';
  words = set-AllWords acc m _ d.words (mix-lt-word _ _ _);
  words' = set-AllWords acc' m _ d.words' (mix-lt-word _ _ _);
  here = d.here;
  apart = λ e. d.apart (round_injective l m byte k acc acc' hm d e);
}

absorb-Differ :
    (key bytes : Bytes) (l i : ℕ) (acc acc' : List ℕ)
    → Differ l acc acc'
    → Differ l (absorb key 32 i acc bytes) (absorb key 32 i acc' bytes)
unfolding absorb
absorb-Differ key [] l i acc acc' d = d
absorb-Differ key (byte ∷ bytes) l i acc acc' d =
    absorb-Differ key bytes l (suc i) _ _ (round-Differ l (i % 4) byte _ acc acc' (omega arith) d)

-- Two data that differ in one byte end in different lanes.
absorb-set :
    (key bytes : Bytes) (i j b : ℕ) (acc : List ℕ)
    → length acc ≡ 4
    → AllWords acc
    → AllBytes bytes
    → b < 256
    → j < length bytes
    → b ≢ get_or bytes j 0
    → (l : ℕ) × Differ l (absorb key 32 i acc bytes) (absorb key 32 i acc (set bytes j b))
unfolding absorb
absorb-set key [] i j b acc four words all hb hj ne = elim hj [ ]
absorb-set key (x ∷ bytes) i (suc j) b acc four words all hb hj ne =
    absorb-set key bytes (suc i) j b _ (length-set acc _ _ ∙ four)
      (set-AllWords acc _ _ words (mix-lt-word _ _ _)) all.1 hb (omega arith) ne
absorb-set key (x ∷ bytes) i zero b acc four words all hb hj ne = (
  i % 4,
  absorb-Differ key bytes (i % 4) (suc i) _ _ (record {
    four = length-set acc _ _ ∙ four;
    four' = length-set acc _ _ ∙ four;
    words = set-AllWords acc _ _ words (mix-lt-word _ _ _);
    words' = set-AllWords acc _ _ words (mix-lt-word _ _ _);
    here = omega arith;
    apart = λ e. ne (
        mix_byte_injective (get_or acc (i % 4) 0) b x _ hb all.0 (
          sym (
            sym (get_or-set_self acc (i % 4) _ 0 (omega arith))
            ∙ e
            ∙ get_or-set_self acc (i % 4) _ 0 (omega arith))));
  }),
)

-- The bytes determine the words.
lane_bytes_injective :
    (acc acc' : List ℕ) (l : ℕ)
    → AllWords acc
    → AllWords acc'
    → length acc ≡ length acc'
    → lane_bytes acc ≡ lane_bytes acc'
    → get_or acc l 0 ≡ get_or acc' l 0
unfolding lane_bytes
lane_bytes_injective [] [] l w w' n e = refl
lane_bytes_injective [] (a' ∷ acc') l w w' n e = absurd (omega arith)
lane_bytes_injective (a ∷ acc) [] l w w' n e = absurd (omega arith)
lane_bytes_injective (a ∷ acc) (a' ∷ acc') zero w w' n e =
    to_le_injective 8 a a' w.0 w'.0 (to_le-append_injective 8 a a' _ _ e).0
lane_bytes_injective (a ∷ acc) (a' ∷ acc') (suc l) w w' n e =
    lane_bytes_injective acc acc' l w.1 w'.1 (omega arith) (to_le-append_injective 8 a a' _ _ e).1

-- A change of one byte changes the checksum, whatever the key and the place.
pub compute_hmac-set_ne :
    (key bytes : Bytes) (j b : ℕ)
    → AllBytes bytes
    → b < 256
    → j < length bytes
    → b ≢ get_or bytes j 0
    → compute_hmac key bytes ≢ compute_hmac key (set bytes j b)
unfolding compute_hmac
compute_hmac-set_ne key bytes j b all hb hj ne e =
    let (l, d) = absorb-set key bytes 0 j b zero_lanes refl (omega arith) all hb hj ne in
    d.apart (lane_bytes_injective _ _ l d.words d.words' (d.four ∙ sym d.four') e)

pub length-absorb :
    (key bytes : Bytes) (n i : ℕ) (acc : List ℕ) → length (absorb key n i acc bytes) ≡ length acc
unfolding absorb
length-absorb key [] n i acc = refl
length-absorb key (x ∷ bytes) n i acc = length-absorb key bytes n (suc i) _ ∙ length-set acc _ _

pub length-lane_bytes : (acc : List ℕ) → length (lane_bytes acc) ≡ 8 * length acc
unfolding lane_bytes
length-lane_bytes [] = refl
length-lane_bytes (a ∷ acc) = omega (arith, length-lane_bytes acc)

pub length-compute_hmac : (key bytes : Bytes) → length (compute_hmac key bytes) ≡ 32
unfolding compute_hmac
length-compute_hmac key bytes = omega (
  arith,
  length-lane_bytes (absorb key 32 0 zero_lanes bytes),
  length-absorb key bytes 32 0 zero_lanes,
)

pub absorb-AllWords :
    (key bytes : Bytes) (n i : ℕ) (acc : List ℕ)
    → AllWords acc
    → AllWords (absorb key n i acc bytes)
unfolding absorb
absorb-AllWords key [] n i acc h = h
absorb-AllWords key (x ∷ bytes) n i acc h =
    absorb-AllWords key bytes n (suc i) _ (set-AllWords acc _ _ h (mix-lt-word _ _ _))
