-- ===== src/Ipc/Message/Tamper.antt =====
-- What the checksum protects: no single changed byte of an accepted message goes unnoticed.
use native.Mathlib.Decide.{dec_lt}
use mathlib.Core.List.{append_assoc}
use mathlib.Core.Path.{subst}
use vaulkeeper.Ipc.Checksum.{compute_hmac}
use vaulkeeper.Ipc.Checksum.Lanes.{compute_hmac-set_ne}
use vaulkeeper.Ipc.Message.{Message, deserialize, header_size, read_header, with_hmac, zero_hmac}
use vaulkeeper.Prelude.{
  ap, arith, drop, get_or, get_or-append_ge, get_or-append_lt, get_or-set_self, length,
  length-append, length-drop, length-set, length-take, set, set-append_ge, set-append_lt, sym, take,
  take-append-drop, ℕ, ◌++◌, ◌+◌, ◌-◌, ◌<◌, ◌∙◌, ◌≡◌, ◌≢◌, ◌≤◌,
}
use vaulkeeper.Prelude.Bytes.{
  AllBytes, AllBytes-append, AllBytes-of_append, Bytes, bytes_eq_iff, drop-append, slice,
  take-append,
}
use vaulkeeper.Util.Error.{ok}

-- The three stretches of a frame: before the checksum, the checksum, and behind it.
record Stretches (bytes pre mid post : Bytes) : Type 0 where
  joined : bytes ≡ pre ++ (mid ++ post)
  pre_size : length pre ≡ 24
  mid_size : length mid ≡ 32

stretches :
    (bytes : Bytes)
    → header_size ≤ length bytes
    → Stretches bytes (take 24 bytes) (slice 24 32 bytes) (drop 32 (drop 24 bytes))
stretches bytes h = record {
  joined =
      sym (
        ap (◌++◌ (take 24 bytes)) (take-append-drop 32 (drop 24 bytes))
        ∙ take-append-drop 24 bytes);
  pre_size = omega (arith, length-take 24 bytes);
  mid_size = omega (arith, length-take 32 (drop 24 bytes), length-drop 24 bytes);
}

with_hmac-stretches :
    (pre mid post tag : Bytes)
    → length pre ≡ 24
    → length mid ≡ 32
    → with_hmac (pre ++ (mid ++ post)) tag ≡ pre ++ (tag ++ post)
unfolding with_hmac
with_hmac-stretches pre mid post tag n m =
    rw (take-append 24 pre (mid ++ post) n, ← append_assoc pre mid post)
      (rw (drop-append 56 (pre ++ mid) post (omega (arith, length-append pre mid))))

-- What an accepted message has passed.
pub accepted :
    (bytes key : Bytes) (m : Message)
    → deserialize bytes key ≡ ok m
    → (header_size ≤ length bytes)
      × (compute_hmac key (with_hmac bytes zero_hmac) ≡ slice 24 32 bytes)
unfolding deserialize read_header
accepted bytes key m e =
    ground (arith, bytes_eq_iff (compute_hmac key (with_hmac bytes zero_hmac)) (slice 24 32 bytes))

-- For a frame in three stretches: the checksum stands in the middle.
accepted_stretches :
    (pre mid post key : Bytes) (m : Message)
    → length pre ≡ 24
    → length mid ≡ 32
    → deserialize (pre ++ (mid ++ post)) key ≡ ok m
    → compute_hmac key (pre ++ (zero_hmac ++ post)) ≡ mid
accepted_stretches pre mid post key m n k e =
    ap (compute_hmac key) (sym (with_hmac-stretches pre mid post zero_hmac n k))
    ∙ (accepted (pre ++ (mid ++ post)) key m e).1
    ∙ ap (take 32) (drop-append 24 pre (mid ++ post) n)
    ∙ take-append 32 mid post k

module _ (pre mid post key : Bytes) (b : ℕ) (hb : b < 256) (n : length pre ≡ 24)
    (k : length mid ≡ 32) (all : AllBytes (pre ++ (zero_hmac ++ post)))
    (sum : compute_hmac key (pre ++ (zero_hmac ++ post)) ≡ mid) where
  set_pre :
      (j : ℕ) (m : Message)
      → j < 24
      → b ≢ get_or pre j 0
      → deserialize (set pre j b ++ (mid ++ post)) key ≢ ok m
  set_pre j m h ne e =
      compute_hmac-set_ne key (pre ++ (zero_hmac ++ post)) j b all hb
        (omega (arith, length-append pre (zero_hmac ++ post)))
        (λ q. ne (q ∙ get_or-append_lt pre _ j 0 (omega arith)))
        (sum
          ∙ sym (accepted_stretches (set pre j b) mid post key m (length-set pre j b ∙ n) k e)
          ∙ ap (compute_hmac key) (sym (set-append_lt pre _ j b (omega arith))))

  set_mid :
      (j : ℕ) (m : Message)
      → j < 32
      → b ≢ get_or mid j 0
      → deserialize (pre ++ (set mid j b ++ post)) key ≢ ok m
  set_mid j m h ne e = ne (
      sym (get_or-set_self mid j b 0 (omega arith))
      ∙ ap (λ bs. get_or bs j 0)
          (sym (accepted_stretches pre (set mid j b) post key m n (length-set mid j b ∙ k) e)
            ∙ sum))

  set_post :
      (j : ℕ) (m : Message)
      → j < length post
      → b ≢ get_or post j 0
      → deserialize (pre ++ (mid ++ set post j b)) key ≢ ok m
  set_post j m h ne e =
      compute_hmac-set_ne key (pre ++ (zero_hmac ++ post)) (24 + (32 + j)) b all hb
        (omega (arith, length-append pre (zero_hmac ++ post)))
        (λ q. ne (
          q
          ∙ get_or-append_ge pre (zero_hmac ++ post) (24 + (32 + j)) (32 + j) 0 (omega arith)
          ∙ get_or-append_ge zero_hmac post (32 + j) j 0 (omega arith)))
        (sum
          ∙ sym (accepted_stretches pre mid (set post j b) key m n k e)
          ∙ ap (compute_hmac key) (
              sym (
                set-append_ge pre (zero_hmac ++ post) (24 + (32 + j)) (32 + j) b (omega arith)
                ∙ ap (◌++◌ pre) (set-append_ge zero_hmac post (32 + j) j b (omega arith)))))

-- The change, in whichever stretch it lies.
set_rejected :
    (pre mid post key : Bytes) (j b : ℕ) (m m' : Message)
    → length pre ≡ 24
    → length mid ≡ 32
    → AllBytes (pre ++ (mid ++ post))
    → b < 256
    → j < length (pre ++ (mid ++ post))
    → b ≢ get_or (pre ++ (mid ++ post)) j 0
    → deserialize (pre ++ (mid ++ post)) key ≡ ok m
    → deserialize (set (pre ++ (mid ++ post)) j b) key ≢ ok m'
set_rejected pre mid post key j b m m' n k all hb hj ne e e' = elim (dec_lt j 24) [
  | yes p ↦
      set_pre pre mid post key b hb n k zeroed sum j m' p
        (λ q. ne (q ∙ sym (get_or-append_lt pre _ j 0 (omega arith))))
        (rw (set-append_lt pre (mid ++ post) j b (omega arith)) at e')
  | no p ↦ elim (dec_lt j 56) [
    | yes q ↦
        set_mid pre mid post key b hb n k zeroed sum (j - 24) m' (omega arith)
          (λ r. ne (
            r
            ∙ sym (
                get_or-append_ge pre (mid ++ post) j (j - 24) 0 (omega arith)
                ∙ get_or-append_lt mid post (j - 24) 0 (omega arith))))
          (rw
            (
              set-append_ge pre (mid ++ post) j (j - 24) b (omega arith),
              set-append_lt mid post (j - 24) b (omega arith),
            )
            at e')
    | no q ↦
        set_post pre mid post key b hb n k zeroed sum (j - 56) m'
          (omega (arith, length-append pre (mid ++ post), length-append mid post))
          (λ r. ne (
            r
            ∙ sym (
                get_or-append_ge pre (mid ++ post) j (j - 24) 0 (omega arith)
                ∙ get_or-append_ge mid post (j - 24) (j - 56) 0 (omega arith))))
          (rw
            (
              set-append_ge pre (mid ++ post) j (j - 24) b (omega arith),
              set-append_ge mid post (j - 24) (j - 56) b (omega arith),
            )
            at e')
  ]
]
  where
    sum : compute_hmac key (pre ++ (zero_hmac ++ post)) ≡ mid
    sum = accepted_stretches pre mid post key m n k e

    zeroed : AllBytes (pre ++ (zero_hmac ++ post))
    zeroed =
        let (before, rest) = AllBytes-of_append pre (mid ++ post) all in
        AllBytes-append pre _ before
          (AllBytes-append zero_hmac post (omega arith) (AllBytes-of_append mid post rest).1)

-- No accepted message is accepted with one of its bytes changed, wherever that byte lies.
pub deserialize-set_ne :
    (bytes key : Bytes) (j b : ℕ) (m m' : Message)
    → AllBytes bytes
    → b < 256
    → j < length bytes
    → b ≢ get_or bytes j 0
    → deserialize bytes key ≡ ok m
    → deserialize (set bytes j b) key ≢ ok m'
deserialize-set_ne bytes key j b m m' all hb hj ne e =
    let s = stretches bytes (accepted bytes key m e).0 in
    subst
      (λ bs.
        AllBytes bs
        → j < length bs
        → b ≢ get_or bs j 0
        → deserialize bs key ≡ ok m
        → deserialize (set bs j b) key ≢ ok m')
      (sym s.joined)
      (λ all hj ne e. set_rejected _ _ _ key j b m m' s.pre_size s.mid_size all hb hj ne e) all hj
      ne e
