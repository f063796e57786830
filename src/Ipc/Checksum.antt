-- ===== src/Ipc/Checksum.antt =====
-- `computeHmac` of src/core/ipc/message.cpp: four 64-bit lanes that the bytes feed in turn. The
-- accumulator array is a list of four numbers below 2 ^ 64; the arithmetic wraps as `uint64_t` does.
pub mod Lanes
pub mod Linear
use vaulkeeper.Prelude.{ℕ, zero, suc, ◌+◌, ◌*◌, ◌%◌, ◌^◌, List, [], ◌∷◌, ◌++◌, get_or, set}
use vaulkeeper.Prelude.Bytes.{Bytes, to_le}

abbrev pub word : ℕ
word = 2 ^ 64

abbrev pub lane_factor : ℕ
lane_factor = 1315423911

abbrev pub key_factor : ℕ
key_factor = 2654435761

-- One round of the loop on the lane it hits.
unfoldable pub mix : ℕ → ℕ → ℕ → ℕ
mix acc byte key_byte = (acc * lane_factor + byte + key_byte * key_factor) % word

-- The loop from index `i`; `acc[i & 3]` and `key[i % keyLen]`.
unfoldable pub absorb : Bytes → ℕ → ℕ → List ℕ → Bytes → List ℕ
absorb key key_len i acc [] = acc
absorb key key_len i acc (byte ∷ rest) =
    absorb key key_len (suc i)
      (set acc (i % 4) (mix (get_or acc (i % 4) 0) byte (get_or key (i % key_len) 0))) rest

abbrev pub zero_lanes : List ℕ
zero_lanes = 0 ∷ 0 ∷ 0 ∷ 0 ∷ []

-- `memcpy(out, acc, 32)`.
unfoldable pub lane_bytes : List ℕ → Bytes
lane_bytes [] = []
lane_bytes (lane ∷ lanes) = to_le 8 lane ++ lane_bytes lanes

unfoldable pub compute_hmac : Bytes → Bytes → Bytes
unfolding absorb lane_bytes mix
compute_hmac key bytes = lane_bytes (absorb key 32 0 zero_lanes bytes)
