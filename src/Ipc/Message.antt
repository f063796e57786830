-- ===== src/Ipc/Message.antt =====
-- src/core/ipc/message.hpp and message.cpp. `MessageHeader` is copied as it lies in memory on x64:
-- magic 0-3, version 4-5, kind 6-7, payload size 8-11, four bytes of padding 12-15, correlation id
-- 16-23, hmac 24-55. The padding has no defined value, so `serialize` takes it as the argument `pad`.
-- A kind is any 16-bit number, as an enumeration with a fixed underlying type may hold.
pub mod Forgery
pub mod Layout
pub mod RoundTrip
pub mod Tamper
use vaulkeeper.Ipc.Checksum.{compute_hmac}
use vaulkeeper.Prelude.{
  drop, if◌then◌else◌, length, ltb, not, replicate, take, ℕ, ◌%◌, ◌++◌, ◌+◌, ◌==◌, ◌^◌,
}
use vaulkeeper.Prelude.Bytes.{Bytes, bytes_eq, from_le, slice, to_le}
use vaulkeeper.Util.Error.{Result, corrupted_data, fail, ok, unauthenticated, version_mismatch}

pub record MessageHeader : Type 0 where
  pub magic : ℕ
  pub version : ℕ
  pub kind : ℕ
  pub payload_size : ℕ
  pub correlation_id : ℕ
  pub hmac : Bytes

pub record Message : Type 0 where
  pub header : MessageHeader
  pub payload : Bytes

abbrev pub message_magic : ℕ
message_magic = 0x564B4C50

abbrev pub header_size : ℕ
header_size = 56

abbrev pub hmac_offset : ℕ
hmac_offset = 24

abbrev pub zero_hmac : Bytes
zero_hmac = replicate 32 0

-- The enumerators of `MessageKind` that the agent and the tests use.
abbrev pub ping : ℕ
ping = 3

abbrev pub pong : ℕ
pong = 4

-- The header's bytes before the hmac, and all of them.
unfoldable pub header_prefix : ℕ → MessageHeader → Bytes
header_prefix pad h =
    to_le 4 h.magic
    ++ (to_le 2 h.version
        ++ (to_le 2 h.kind
            ++ (to_le 4 h.payload_size ++ (to_le 4 pad ++ to_le 8 h.correlation_id))))

unfoldable pub header_bytes : ℕ → MessageHeader → Bytes
unfolding header_prefix
header_bytes pad h = header_prefix pad h ++ h.hmac

-- `memcpy` of 32 bytes over the hmac field.
unfoldable pub with_hmac : Bytes → Bytes → Bytes
with_hmac bytes hmac = take hmac_offset bytes ++ (hmac ++ drop header_size bytes)

unfoldable pub serialize : ℕ → Message → Bytes → Result Bytes
unfolding header_bytes with_hmac
serialize pad msg key =
    let header = record msg.header {
      payload_size = length msg.payload % 2 ^ 32;
      hmac = zero_hmac;
    } in
    let bytes = header_bytes pad header ++ msg.payload in
    ok (with_hmac bytes (compute_hmac key bytes))

unfoldable pub read_header : Bytes → MessageHeader
read_header bytes = record {
  magic = from_le (slice 0 4 bytes);
  version = from_le (slice 4 2 bytes);
  kind = from_le (slice 6 2 bytes);
  payload_size = from_le (slice 8 4 bytes);
  correlation_id = from_le (slice 16 8 bytes);
  hmac = slice 24 32 bytes;
}

unfoldable pub deserialize : Bytes → Bytes → Result Message
deserialize bytes key =
    if ltb (length bytes) header_size
    then fail corrupted_data "ipc message too small"
    else (let h = read_header bytes in
        if not (h.magic == message_magic)
        then fail corrupted_data "ipc bad magic"
        else if not (h.version == 1)
        then fail version_mismatch "ipc unsupported version"
        else if ltb (length bytes) (header_size + h.payload_size)
        then fail corrupted_data "ipc truncated payload"
        else if not (bytes_eq (compute_hmac key (with_hmac bytes zero_hmac)) h.hmac)
        then fail unauthenticated "ipc hmac mismatch"
        else ok (record { header = h; payload = slice header_size h.payload_size bytes }))
