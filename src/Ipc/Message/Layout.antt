-- ===== src/Ipc/Message/Layout.antt =====
-- Where the fields of a serialised message lie.
use vaulkeeper.Ipc.Message.{MessageHeader, header_prefix, header_size, read_header, with_hmac}
use vaulkeeper.Prelude.{ap, arith, length, length-append, ℕ, ◌++◌, ◌+◌, ◌<◌, ◌^◌, ◌≡◌}
use vaulkeeper.Prelude.Bytes.{Bytes, drop-append, from_le-to_le, slice, take-append, take_all}

-- The fields of a header fit their types.
pub record Fits (h : MessageHeader) : Type 0 where
  pub magic : h.magic < 2 ^ 32
  pub version : h.version < 2 ^ 16
  pub kind : h.kind < 2 ^ 16
  pub payload_size : h.payload_size < 2 ^ 32
  pub correlation_id : h.correlation_id < 2 ^ 64

-- What `serialize` writes, with the checksum as a parameter.
abbrev pub framed : ℕ → MessageHeader → Bytes → Bytes → Bytes
framed pad h tag payload = header_prefix pad h ++ (tag ++ payload)

pub with_hmac-framed :
    (pad : ℕ) (h : MessageHeader) (tag tag' payload : Bytes)
    → length tag ≡ 32
    → with_hmac (framed pad h tag payload) tag' ≡ framed pad h tag' payload
unfolding with_hmac header_prefix
with_hmac-framed pad h tag tag' payload n =
    ap (λ bs. header_prefix pad h ++ (tag' ++ bs)) (drop-append 32 tag payload n)

pub length-framed :
    (pad : ℕ) (h : MessageHeader) (tag payload : Bytes)
    → length tag ≡ 32
    → length (framed pad h tag payload) ≡ header_size + length payload
unfolding header_prefix
length-framed pad h tag payload n = omega (arith, length-append tag payload)

pub slice_payload :
    (pad : ℕ) (h : MessageHeader) (tag payload : Bytes)
    → length tag ≡ 32
    → slice header_size (length payload) (framed pad h tag payload) ≡ payload
unfolding header_prefix
slice_payload pad h tag payload n = rw (drop-append 32 tag payload n) (take_all payload)

pub read_header-framed :
    (pad : ℕ) (h : MessageHeader) (tag payload : Bytes)
    → length tag ≡ 32
    → Fits h
    → read_header (framed pad h tag payload) ≡ record h { hmac = tag }
unfolding read_header header_prefix
read_header-framed pad h tag payload n fits = λ i. record {
  magic = from_le-to_le 4 h.magic fits.magic i;
  version = from_le-to_le 2 h.version fits.version i;
  kind = from_le-to_le 2 h.kind fits.kind i;
  payload_size = from_le-to_le 4 h.payload_size fits.payload_size i;
  correlation_id = from_le-to_le 8 h.correlation_id fits.correlation_id i;
  hmac = take-append 32 tag payload n i;
}
