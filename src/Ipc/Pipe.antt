-- ===== src/Ipc/Pipe.antt =====
-- src/core/ipc/pipe_client.cpp, pipe_server.cpp and src/agent/elevated/service.cpp on Windows. What
-- the named-pipe calls do is a parameter; the messages in between are the code's.
pub mod Exchange
use Prim.Native.String.{String}
use vaulkeeper.Ipc.Message.{Message, deserialize, message_magic, pong, serialize, zero_hmac}
use vaulkeeper.Prelude.{
  Bool, Option, [], if◌then◌else◌, leb, length, none, not, some, suc, zero, ℕ, ◌%◌, ◌*◌, ◌+◌, ◌∷◌,
}
use vaulkeeper.Prelude.Bytes.{Bytes}
use vaulkeeper.Util.Error.{Error, Result, err, fail, ok, timeout, ◌>>=◌}

-- What the calls of the client on the pipe report.
pub record PipeCalls : Type 0 where
  -- `WaitNamedPipeA` and `CreateFileA` succeed.
  pub available : Bool
  pub opened : Bool
  -- `WriteFile` on the request, and the bytes that `ReadFile` gives for the answer.
  pub written : Bytes → Bool
  pub answer : Bytes → Option Bytes
  -- `fromLastOsError`.
  pub last_error : String → Error

unfoldable pub read_answer : PipeCalls → Bytes → Bytes → Result Message
read_answer calls request key = elim (calls.answer request) [
  | none ↦ err (calls.last_error "pipe read failed")
  | some buffer ↦ deserialize buffer key
]

-- `PipeClient::request`.
unfoldable pub request : PipeCalls → ℕ → Message → Bytes → Result Message
unfolding read_answer
request calls pad msg key =
    if not calls.available
    then fail timeout "pipe not available"
    else if not calls.opened
    then err (calls.last_error "pipe open failed")
    else do
      bytes ← serialize pad msg key
      if not (calls.written bytes)
          then err (calls.last_error "pipe write failed")
          else read_answer calls bytes key

-- One connection of `PipeServer::runLoop`: the bytes that `ReadFile` gave, and those written back. An
-- empty handler answers with `Message {}`.
abbrev pub empty_message : Message
empty_message = record {
  header = record {
    magic = message_magic;
    version = 1;
    kind = 0;
    payload_size = 0;
    correlation_id = 0;
    hmac = zero_hmac;
  };
  payload = [];
}

abbrev pub handle_with : Option (Message → Message) → Message → Message
handle_with none msg = empty_message
handle_with (some handler) msg = handler msg

abbrev pub written_back : Result Bytes → Option Bytes
written_back (ok bytes) = some bytes
written_back (err _) = none

abbrev pub answer_parsed : Option (Message → Message) → ℕ → Bytes → Result Message → Option Bytes
answer_parsed handler pad key (ok msg) = written_back (serialize pad (handle_with handler msg) key)
answer_parsed handler pad key (err _) = none

unfoldable pub serve_one : Option (Message → Message) → ℕ → Bytes → Option Bytes → Option Bytes
serve_one handler pad key none = none
serve_one handler pad key (some []) = none
serve_one handler pad key (some (b ∷ buffer)) =
    answer_parsed handler pad key (deserialize (b ∷ buffer) key)

-- `ElevatedService::handle`.
unfoldable pub handle : Message → Message
handle msg = record {
  header = record empty_message.header {
    kind = pong;
    correlation_id = msg.header.correlation_id;
    version = msg.header.version;
  };
  payload = [];
}

-- The key that `ElevatedService` builds: `(i * 131 + 0x9E) & 0xFF`, counted from `i`.
unfoldable pub agent_key_from : ℕ → ℕ → Bytes
agent_key_from zero i = []
agent_key_from (suc n) i = ((i * 131 + 0x9E) % 256) ∷ agent_key_from n (suc i)

unfoldable pub agent_key : Bytes
unfolding agent_key_from
agent_key = agent_key_from 32 0

-- Both sides read into buffers of this size, and a longer message makes `ReadFile` fail.
abbrev pub pipe_buffer : ℕ
pipe_buffer = 64 * 1024

abbrev pub read_file : Bytes → Option Bytes
read_file bytes = if leb (length bytes) pipe_buffer then some bytes else none
