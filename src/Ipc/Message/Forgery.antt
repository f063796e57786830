-- ===== src/Ipc/Message/Forgery.antt =====
-- The checksum does not authenticate: one accepted message is enough to make others.
use vaulkeeper.Ipc.Checksum.Lanes.{length-compute_hmac}
use vaulkeeper.Ipc.Checksum.Linear.{forge, forge-compute_hmac}
use vaulkeeper.Ipc.Message.{Message, deserialize, header_size, message_magic, with_hmac, zero_hmac}
use vaulkeeper.Ipc.Message.Layout.{Fits, framed, length-framed}
use vaulkeeper.Ipc.Message.RoundTrip.{deserialize-framed, sent_hmac, sized_header}
use vaulkeeper.Ipc.Message.Tamper.{accepted}
use vaulkeeper.Prelude.{
  ap, arith, drop, length, length-append, length-drop, length-take, refl, sym, take, ℕ, ◌++◌, ◌+◌,
  ◌<◌, ◌^◌, ◌∙◌, ◌≡◌, ◌≤◌,
}
use vaulkeeper.Prelude.Bytes.{Bytes, slice}
use vaulkeeper.Util.Error.{ok}

-- What an attacker who has seen `wire`, and has no key, sends in place of it.
unfoldable pub forged : Bytes → ℕ → Message → Bytes
forged wire pad msg =
    framed pad (sized_header msg)
      (forge (with_hmac wire zero_hmac) (slice 24 32 wire)
        (framed pad (sized_header msg) zero_hmac msg.payload))
      msg.payload

length-with_hmac :
    (bytes tag : Bytes)
    → header_size ≤ length bytes
    → length tag ≡ 32
    → length (with_hmac bytes tag) ≡ length bytes
unfolding with_hmac
length-with_hmac bytes tag h n = omega (
  arith,
  length-append (take 24 bytes) (tag ++ drop 56 bytes),
  length-append tag (drop 56 bytes),
  length-take 24 bytes,
  length-drop 56 bytes,
)

-- Any message of the same length as an accepted one, with the current magic and version, is
-- accepted with a checksum that was computed without the key.
pub deserialize-forged :
    (wire key : Bytes) (seen : Message) (pad : ℕ) (msg : Message)
    → deserialize wire key ≡ ok seen
    → length wire ≡ header_size + length msg.payload
    → Fits msg.header
    → length msg.payload < 2 ^ 32
    → msg.header.magic ≡ message_magic
    → msg.header.version ≡ 1
    → deserialize (forged wire pad msg) key
      ≡ ok (record {
        header = record (sized_header msg) { hmac = sent_hmac pad msg key };
        payload = msg.payload;
      })
unfolding forged
deserialize-forged wire key seen pad msg e n fits size m v =
    ap (λ tag. deserialize (framed pad (sized_header msg) tag msg.payload) key) tags
    ∙ deserialize-framed pad (sized_header msg) key _ msg.payload (length-compute_hmac key _)
        (record {
          magic = fits.magic;
          version = fits.version;
          kind = fits.kind;
          payload_size = size;
          correlation_id = fits.correlation_id;
        })
        m v refl refl
  where
    blank : Bytes
    blank = with_hmac wire zero_hmac

    lengths : length blank ≡ length (framed pad (sized_header msg) zero_hmac msg.payload)
    lengths =
        length-with_hmac wire zero_hmac (omega arith) refl
        ∙ n
        ∙ sym (length-framed pad (sized_header msg) zero_hmac msg.payload refl)

    tags :
        forge blank (slice 24 32 wire) (framed pad (sized_header msg) zero_hmac msg.payload)
        ≡ sent_hmac pad msg key
    tags =
        ap (λ t. forge blank t (framed pad (sized_header msg) zero_hmac msg.payload))
          (sym (accepted wire key seen e).1)
        ∙ forge-compute_hmac key blank _ lengths
