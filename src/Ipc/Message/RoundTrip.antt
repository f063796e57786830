-- ===== src/Ipc/Message/RoundTrip.antt =====
-- A message that one side serialises is read back by the other.
use vaulkeeper.Ipc.Checksum.{compute_hmac}
use vaulkeeper.Ipc.Checksum.Lanes.{length-compute_hmac}
use vaulkeeper.Ipc.Message.{
  Message, MessageHeader, deserialize, message_magic, serialize, zero_hmac,
}
use vaulkeeper.Ipc.Message.Layout.{
  Fits, framed, length-framed, read_header-framed, slice_payload, with_hmac-framed,
}
use vaulkeeper.Prelude.{ap, arith, length, refl, ℕ, ◌%◌, ◌<◌, ◌^◌, ◌≡◌}
use vaulkeeper.Prelude.Bytes.{Bytes, bytes_eq_self}
use vaulkeeper.Util.Error.{ok, ◌>>=◌}

-- The header that a receiver sees: the payload's true size and the checksum are filled in.
abbrev pub sized_header : Message → MessageHeader
sized_header msg = record msg.header { payload_size = length msg.payload; hmac = zero_hmac }

abbrev pub sent_hmac : ℕ → Message → Bytes → Bytes
sent_hmac pad msg key = compute_hmac key (framed pad (sized_header msg) zero_hmac msg.payload)

pub serialize-framed :
    (pad : ℕ) (msg : Message) (key : Bytes)
    → length msg.payload < 2 ^ 32
    → serialize pad msg key ≡ ok (framed pad (sized_header msg) (sent_hmac pad msg key) msg.payload)
unfolding serialize
serialize-framed pad msg key n =
    let fit : length msg.payload % 2 ^ 32 ≡ length msg.payload = omega arith in
    ap
      (λ (size : ℕ).
        let h = record msg.header { payload_size = size; hmac = zero_hmac } in
        ok (framed pad h (compute_hmac key (framed pad h zero_hmac msg.payload)) msg.payload))
      fit

-- A frame with the right magic, version, size and checksum is accepted.
pub deserialize-framed :
    (pad : ℕ) (h : MessageHeader) (key tag payload : Bytes)
    → length tag ≡ 32
    → Fits h
    → h.magic ≡ message_magic
    → h.version ≡ 1
    → h.payload_size ≡ length payload
    → compute_hmac key (framed pad h zero_hmac payload) ≡ tag
    → deserialize (framed pad h tag payload) key
      ≡ ok (record { header = record h { hmac = tag }; payload = payload })
unfolding deserialize
deserialize-framed pad h key tag payload n fits m v size sum = ground (
  arith,
  length-framed pad h tag payload n,
  read_header-framed pad h tag payload n fits,
  with_hmac-framed pad h tag zero_hmac payload n,
  slice_payload pad h tag payload n,
  bytes_eq_self tag,
)

-- Whatever the key, the padding and the fields, a message with the current magic and version comes
-- back with its kind, correlation id and payload, if the payload's size fits 32 bits.
pub deserialize-serialize :
    (pad : ℕ) (msg : Message) (key : Bytes)
    → Fits msg.header
    → msg.header.magic ≡ message_magic
    → msg.header.version ≡ 1
    → length msg.payload < 2 ^ 32
    → (serialize pad msg key >>= λ bytes. deserialize bytes key)
      ≡ ok (record {
        header = record (sized_header msg) { hmac = sent_hmac pad msg key };
        payload = msg.payload;
      })
deserialize-serialize pad msg key fits m v n = rw (serialize-framed pad msg key n) (
    deserialize-framed pad (sized_header msg) key _ msg.payload (length-compute_hmac key _)
      (record {
        magic = fits.magic;
        version = fits.version;
        kind = fits.kind;
        payload_size = n;
        correlation_id = fits.correlation_id;
      })
      m v refl refl)
