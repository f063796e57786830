-- ===== src/Ipc/Tests.antt =====
-- Messages at concrete inputs.
use vaulkeeper.Ipc.Checksum.{compute_hmac}
use vaulkeeper.Ipc.Checksum.Lanes.{length-compute_hmac}
use vaulkeeper.Ipc.Message.{Message, deserialize, header_prefix, ping, serialize}
use vaulkeeper.Ipc.Message.Forgery.{deserialize-forged, forged}
use vaulkeeper.Ipc.Message.Layout.{Fits, framed}
use vaulkeeper.Ipc.Message.RoundTrip.{
  deserialize-framed, deserialize-serialize, sent_hmac, sized_header,
}
use vaulkeeper.Ipc.Message.Tamper.{deserialize-set_ne}
use vaulkeeper.Ipc.Pipe.{PipeCalls, agent_key, empty_message, handle, read_file, request, serve_one}
use vaulkeeper.Ipc.Pipe.Exchange.{AnswersWithPong, Carries, request-AnswersWithPong}
use vaulkeeper.Prelude.{Option, [], ap, arith, none, refl, set, some, true, ◌∷◌, ◌≡◌}
use vaulkeeper.Prelude.Bytes.{AllBytes, Bytes, codes}
use vaulkeeper.Util.Error.{corrupted_data, fail, io_error, make_error, ok, ◌>>=◌}

abbrev hello : Message
hello = record {
  header = record empty_message.header { kind = ping; correlation_id = 0xDEADBEEF };
  payload = codes "hi";
}

abbrev test_key : Bytes
test_key = 1 ∷ 2 ∷ 3 ∷ 4 ∷ []

abbrev hello_wire : Bytes
hello_wire = framed 0 (sized_header hello) (sent_hmac 0 hello agent_key) hello.payload

abbrev hello_received : Message
hello_received = record {
  header = record (sized_header hello) { hmac = sent_hmac 0 hello agent_key };
  payload = hello.payload;
}

hello-Fits : Fits hello.header
hello-Fits = omega arith

deserialize-serialize_example :
    (serialize 0 hello agent_key >>= λ bytes. deserialize bytes agent_key) ≡ ok hello_received
deserialize-serialize_example =
    deserialize-serialize 0 hello agent_key hello-Fits refl refl (omega arith)

hello_wire-accepted : deserialize hello_wire agent_key ≡ ok hello_received
hello_wire-accepted =
    deserialize-framed 0 (sized_header hello) agent_key _ hello.payload
      (length-compute_hmac agent_key _) (omega arith) refl refl refl refl

hello_wire-AllBytes : AllBytes hello_wire
unfolding header_prefix agent_key compute_hmac
hello_wire-AllBytes = omega arith

-- The first byte of the payload, and the first of the checksum.
deserialize-set_ne_example :
    (deserialize (set hello_wire 56 b'H') agent_key ≡ ok hello_received) → ⊥
unfolding header_prefix agent_key compute_hmac
deserialize-set_ne_example =
    deserialize-set_ne hello_wire agent_key 56 b'H' hello_received hello_received
      hello_wire-AllBytes (omega arith) (omega arith) (omega arith) hello_wire-accepted

abbrev evil : Message
evil = record hello { payload = codes "no" }

deserialize-forged_example :
    deserialize (forged hello_wire 0 evil) agent_key
    ≡ ok (record {
      header = record (sized_header evil) { hmac = sent_hmac 0 evil agent_key };
      payload = evil.payload;
    })
unfolding header_prefix agent_key compute_hmac
deserialize-forged_example =
    deserialize-forged hello_wire agent_key hello_received 0 evil hello_wire-accepted refl
      hello-Fits (omega arith) refl refl

-- A pipe with the agent behind it.
abbrev answer_of : Option Bytes → Option Bytes
answer_of none = none
answer_of (some bytes) = read_file bytes

abbrev agent_pipe : PipeCalls
agent_pipe = record {
  available = true;
  opened = true;
  written = λ _. true;
  answer = λ bytes. answer_of (serve_one (some handle) 0 agent_key (read_file bytes));
  last_error = make_error io_error;
}

agent_pipe-Carries : Carries agent_pipe 0 agent_key
agent_pipe-Carries = record {
  available = refl;
  opened = refl;
  written = λ _. refl;
  answer = λ bytes answer e. ap answer_of e;
}

request-AnswersWithPong_example : AnswersWithPong hello (request agent_pipe 0 hello agent_key)
request-AnswersWithPong_example =
    request-AnswersWithPong agent_pipe 0 0 hello agent_key agent_pipe-Carries hello-Fits refl refl
      (omega arith)

rejects_short : deserialize (codes "hi") agent_key ≡ fail corrupted_data "ipc message too small"
unfolding deserialize
rejects_short = refl
