-- ===== src/Ipc/Pipe/Exchange.antt =====
-- A client and the agent, over a pipe that carries whole messages.
use vaulkeeper.Ipc.Checksum.Lanes.{length-compute_hmac}
use vaulkeeper.Ipc.Message.{
  Message, MessageHeader, deserialize, header_prefix, header_size, message_magic, pong, serialize,
}
use vaulkeeper.Ipc.Message.Layout.{Fits, framed, length-framed}
use vaulkeeper.Ipc.Message.RoundTrip.{deserialize-framed, sent_hmac, serialize-framed, sized_header}
use vaulkeeper.Ipc.Pipe.{
  PipeCalls, answer_parsed, handle, pipe_buffer, read_answer, read_file, request, serve_one,
  written_back,
}
use vaulkeeper.Prelude.{
  [], ap, arith, length, length-append, le→leb, refl, some, true, ℕ, ◌+◌, ◌∙◌, ◌≡◌, ◌≤◌,
}
use vaulkeeper.Prelude.Bytes.{Bytes}
use vaulkeeper.Util.Error.{Result, err, ok}

-- The pipe is there, and what is written on one side is read on the other.
pub record Carries (calls : PipeCalls) (server_pad : ℕ) (key : Bytes) : Type 0 where
  pub available : calls.available ≡ true
  pub opened : calls.opened ≡ true
  pub written : (bytes : Bytes) → calls.written bytes ≡ true
  pub answer :
      (bytes answer : Bytes)
      → serve_one (some handle) server_pad key (read_file bytes) ≡ some answer
      → calls.answer bytes ≡ read_file answer

read_file_lem : (bytes : Bytes) → length bytes ≤ pipe_buffer → read_file bytes ≡ some bytes
read_file_lem bytes h = rw (le→leb (length bytes) pipe_buffer h)

serve_one-framed :
    (pad server_pad : ℕ) (h : MessageHeader) (key tag payload : Bytes) (msg : Message)
    → header_size + length payload ≤ pipe_buffer
    → length tag ≡ 32
    → deserialize (framed pad h tag payload) key ≡ ok msg
    → serve_one (some handle) server_pad key (read_file (framed pad h tag payload))
      ≡ written_back (serialize server_pad (handle msg) key)
unfolding serve_one header_prefix
serve_one-framed pad server_pad h key tag payload msg n k e =
    ap (serve_one (some handle) server_pad key)
      (read_file_lem (framed pad h tag payload) (omega (arith, length-append tag payload)))
    ∙ ap (answer_parsed (some handle) server_pad key) e

-- What `handle` makes of a request with the current magic and version is itself such a message.
handle-Fits : (msg : Message) → Fits msg.header → Fits (handle msg).header
unfolding handle
handle-Fits msg fits = record {
  magic = omega arith;
  version = fits.version;
  kind = omega arith;
  payload_size = omega arith;
  correlation_id = fits.correlation_id;
}

abbrev reply : ℕ → Message → Bytes → Message
reply server_pad msg key = record {
  header = record (sized_header (handle msg)) { hmac = sent_hmac server_pad (handle msg) key };
  payload = [];
}

-- What the client is to get for a message.
abbrev pub AnswersWithPong : Message → Result Message → Type 0
AnswersWithPong msg (err e) = ⊥
AnswersWithPong msg (ok r) =
    (r.header.magic ≡ message_magic)
    × (r.header.version ≡ 1)
    × (r.header.kind ≡ pong)
    × (r.header.payload_size ≡ 0)
    × (r.header.correlation_id ≡ msg.header.correlation_id)
    × (r.payload ≡ [])

module _ (calls : PipeCalls) (pad server_pad : ℕ) (msg : Message) (key : Bytes)
    (carries : Carries calls server_pad key) (fits : Fits msg.header)
    (m : msg.header.magic ≡ message_magic) (v : msg.header.version ≡ 1)
    (room : header_size + length msg.payload ≤ pipe_buffer) where
  abbrev wire : Bytes
  wire = framed pad (sized_header msg) (sent_hmac pad msg key) msg.payload

  abbrev received : Message
  received = record {
    header = record (sized_header msg) { hmac = sent_hmac pad msg key };
    payload = msg.payload;
  }

  received_lem : deserialize wire key ≡ ok received
  received_lem =
      deserialize-framed pad (sized_header msg) key _ msg.payload (length-compute_hmac key _)
        (record {
          magic = fits.magic;
          version = fits.version;
          kind = fits.kind;
          payload_size = omega arith;
          correlation_id = fits.correlation_id;
        })
        m v refl refl

  abbrev answer_wire : Bytes
  answer_wire =
      framed server_pad (sized_header (handle msg)) (sent_hmac server_pad (handle msg) key) []

  answered : serve_one (some handle) server_pad key (read_file wire) ≡ some answer_wire
  unfolding handle
  answered =
      serve_one-framed pad server_pad (sized_header msg) key _ msg.payload received room
        (length-compute_hmac key _) received_lem
      ∙ ap written_back (serialize-framed server_pad (handle msg) key (omega arith))

  answer_wire_lem : deserialize answer_wire key ≡ ok (reply server_pad msg key)
  unfolding handle
  answer_wire_lem =
      deserialize-framed server_pad (sized_header (handle msg)) key _ [] (length-compute_hmac key _)
        (record (handle-Fits msg fits) { payload_size = omega arith }) refl v refl refl

  answer_read : read_answer calls wire key ≡ ok (reply server_pad msg key)
  unfolding read_answer
  answer_read =
      rw
        (
          carries.answer wire answer_wire answered
              ∙ read_file_lem answer_wire (
                  omega (
                    arith,
                    length-framed server_pad (sized_header (handle msg))
                        (sent_hmac server_pad (handle msg) key) [] (length-compute_hmac key _),
                  )),
          read_answer,
        )
        answer_wire_lem

  -- A request with the current magic and version, whose fields have their widths and whose bytes fit
  -- the buffer, is answered over a pipe that carries bytes to the agent and back: the client gets,
  -- with no error, a `Pong` without a payload that has the request's correlation id and the current
  -- magic and version.
  pub request-AnswersWithPong : AnswersWithPong msg (request calls pad msg key)
  unfolding request handle
  request-AnswersWithPong =
      rw (carries.available, carries.opened, serialize-framed pad msg key (omega arith))
        (rw (carries.written wire) (rw answer_read (refl, v, refl, refl, refl, refl)))
