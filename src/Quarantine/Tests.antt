-- ===== src/Quarantine/Tests.antt =====
-- The quarantine on a small disk.
use Prim.Native.String.{String}
use mathlib.Core.Option.{some-injective}
use vaulkeeper.Fs.{FileSystem}
use vaulkeeper.Prelude.{
  Bool, List, Option, [], arith, false, if◌then◌else◌, length, none, refl, some, sym, true, ℕ, ◌%◌,
  ◌++◌, ◌-◌, ◌==◌, ◌^◌, ◌↔◌, ◌∷◌, ◌≡◌,
}
use vaulkeeper.Prelude.Bytes.{Bytes, bytes_eq, bytes_eq_self, codes}
use vaulkeeper.Prelude.Int.{pos, ◌*ℤ◌, ◌+ℤ◌}
use vaulkeeper.Quarantine.Index.{
  QuarantineItem, index_text, item_text, items_text, load_text, stored_total,
}
use vaulkeeper.Quarantine.Index.Fuel.{Ends, load_text-Ends}
use vaulkeeper.Quarantine.Index.Oversized.{IsOversized, load_text_oversized}
use vaulkeeper.Quarantine.Index.ReadFields.{IsStorable}
use vaulkeeper.Quarantine.Index.RoundTrip.{load_text-index_text}
use vaulkeeper.Quarantine.Json.{found, read_string}
use vaulkeeper.Quarantine.Json.Strings.{Named, quoted, read_string-quoted_iff}
use vaulkeeper.Quarantine.Store.{
  Capture, Quarantine, capture, captured_item, discard, find_item, fresh, keep, persist_index,
  purge_expired, restore,
}
use vaulkeeper.Quarantine.Store.Accounting.{Exact, Runs-Exact}
use vaulkeeper.Quarantine.Store.GiveBack.{discard-capture, restore-capture}
use vaulkeeper.Quarantine.Store.Purging.{CountsGone, KeepsUnexpired, purge_expired-KeepsUnexpired}
use vaulkeeper.Quarantine.Store.Reload.{KeepsFiles, start_up-run}
use vaulkeeper.Quarantine.Store.Requests.{
  HasRoom, capture_file, no_request, request_then, run, start_up, status,
}
use vaulkeeper.Util.Error.{ok}
use vaulkeeper.Util.Time.{to_unix_nanos}

-- A disk of files, the last one written first.
abbrev Files : Type 0
Files = List (Bytes × Bytes)

unfoldable look_up : Bytes → Files → Option Bytes
unfolding bytes_eq
look_up path [] = none
look_up path ((p, text) ∷ files) =
    let rest = look_up path files in if bytes_eq p path then some text else rest

abbrev is_some : Option Bytes → Bool
is_some none = false
is_some (some _) = true

abbrev size_at : Option Bytes → ℕ
size_at none = 2 ^ 64 - 1
size_at (some text) = length text

unfoldable delete : Bytes → Files → Files
unfolding bytes_eq
delete path [] = []
delete path ((p, text) ∷ files) =
    let rest = delete path files in if bytes_eq p path then rest else (p, text) ∷ rest

abbrev move : Bytes → Bytes → Files → Option Bytes → Option String × Files
move from to files none = (some "no such file", files)
move from to files (some text) = (none, (to, text) ∷ delete from files)

-- What stands behind the last slash.
unfoldable base_name : Bytes → Bytes → Bytes
base_name seen [] = seen
base_name seen (c ∷ cs) =
    let fresh_name = base_name [] cs in
    let longer = base_name (seen ++ c ∷ []) cs in if c == b'/' then fresh_name else longer

abbrev test_fs : FileSystem Files
test_fs = record {
  exists = λ path files. is_some (look_up path files);
  absolute = λ path files. path;
  is_directory = λ path files. false;
  tree = λ path files. [];
  file_size = λ path files. size_at (look_up path files);
  create_directories = λ path files. (none, files);
  rename = λ from to files. move from to files (look_up from files);
  remove_all = λ path files. files;
  write_file = λ path text files. some ((path, text) ∷ files);
  read_file = look_up;
  join = λ a b. a ++ b'/' ∷ b;
  filename = base_name [];
  parent_path = λ path. path;
}

look_up_first :
    (path text : Bytes) (files : Files) → look_up path ((path, text) ∷ files) ≡ some text
unfolding look_up
look_up_first path text files = rw (bytes_eq_self path) refl

test_fs-KeepsFiles : KeepsFiles test_fs
test_fs-KeepsFiles = record {
  read_written = λ path text disk disk' e.
      rw (sym (some-injective ((path, text) ∷ disk) disk' e)) (look_up_first path text disk);
  exists_written = λ path text disk disk' e.
      rw (sym (some-injective ((path, text) ∷ disk) disk' e), look_up_first path text disk) refl;
  read_created = λ path dir disk. refl;
  exists_created = λ path dir disk e. e;
}

abbrev files : Files
files = (codes "C:/tmp/a.txt", codes "hello") ∷ []

abbrev vault : Quarantine
vault = record fresh { root = codes "Q" }

abbrev take_a : Capture
take_a = record {
  source = codes "C:/tmp/a.txt";
  reason = codes "old";
  correlation_id = [];
  item_id = codes "7f";
  captured_at = pos 1000;
  clock = pos 1001;
}

abbrev item_a : QuarantineItem
item_a = captured_item test_fs vault take_a (codes "C:/tmp/a.txt") 5

item_a-IsStorable : IsStorable item_a
unfolding to_unix_nanos ◌+ℤ◌ ◌*ℤ◌
item_a-IsStorable = record {
  id = omega arith;
  original_path = omega arith;
  storage_path = omega arith;
  original_size_bytes = omega arith;
  stored_size_bytes = omega arith;
  captured_at = omega arith;
  expires_at = omega arith;
  reason = omega arith;
  correlation_id = tt;
}

load_text-index_text_example :
    load_text (index_text (item_a ∷ item_a ∷ []))
    ≡ some (record {
      items = item_a ∷ item_a ∷ [];
      stored_bytes = stored_total (item_a ∷ item_a ∷ []) % 2 ^ 64;
    })
load_text-index_text_example =
    load_text-index_text (item_a ∷ item_a ∷ []) (item_a-IsStorable, (item_a-IsStorable, tt))

-- What `file_size` gives for a file that it cannot read.
abbrev item_unknown : QuarantineItem
item_unknown = record item_a { original_size_bytes = 2 ^ 64 - 1; stored_size_bytes = 2 ^ 64 - 1 }

item_unknown-IsOversized : IsOversized item_unknown
item_unknown-IsOversized = record {
  id = omega arith;
  original_path = omega arith;
  storage_path = omega arith;
  above = omega arith;
  below = omega arith;
}

load_text_oversized_example :
    load_text (index_text (item_a ∷ item_unknown ∷ item_a ∷ []))
    ≡ some (record { items = item_a ∷ []; stored_bytes = stored_total (item_a ∷ []) % 2 ^ 64 })
load_text_oversized_example =
    load_text_oversized (item_a ∷ []) item_unknown (item_a ∷ []) (item_a-IsStorable, tt)
      item_unknown-IsOversized

load_text-Ends_example : Ends (load_text (codes "{ \"items\" : [ {{,"))
load_text-Ends_example = load_text-Ends (codes "{ \"items\" : [ {{,")

read_string-quoted_iff_example :
    (read_string (quoted (codes "a\"b\n") []) ≡ found (codes "a\"b\n") []) ↔ Named (codes "a\"b\n")
read_string-quoted_iff_example = read_string-quoted_iff (codes "a\"b\n") []

vault-Exact : Exact vault
unfolding stored_total
vault-Exact = refl

captured_a : (capture test_fs take_a vault files).0 ≡ ok item_a
unfolding capture look_up base_name persist_index index_text items_text item_text
captured_a = refl

-- The quarantine and the disk behind the capture.
abbrev vault_a : Quarantine
vault_a = keep test_fs item_a vault

captured_a_state : (run test_fs (capture_file take_a) vault files).0 ≡ vault_a
unfolding run capture look_up base_name persist_index
captured_a_state = refl

captured_a_room : HasRoom test_fs (capture_file take_a) vault files
unfolding stored_total
captured_a_room = rw captured_a_state (omega arith)

Runs-Exact_example : Exact (run test_fs (capture_file take_a) vault files).0
Runs-Exact_example =
    Runs-Exact test_fs (request_then (capture_file take_a) captured_a_room no_request) vault-Exact

captured_a_status : status test_fs (capture_file take_a) vault files ≡ ok tt
unfolding status capture look_up base_name persist_index
captured_a_status = refl

start_up-run_example :
    start_up test_fs (run test_fs (capture_file take_a) vault files)
    ≡ (ok tt, run test_fs (capture_file take_a) vault files)
start_up-run_example =
    start_up-run test_fs test_fs-KeepsFiles (capture_file take_a) vault files captured_a_status
      vault-Exact captured_a_room (rw captured_a_state (item_a-IsStorable, tt)) refl

not_there : find_item take_a.item_id vault.items ≡ none
unfolding find_item
not_there = refl

discard-capture_example :
    (discard test_fs (codes "7f") (capture test_fs take_a vault files).1.0 []).1.0 ≡ vault
discard-capture_example =
    discard-capture test_fs take_a vault item_a files [] not_there captured_a (omega arith)

restored_a :
    (restore test_fs
      (codes "7f")
      (capture test_fs take_a vault files).1.0
      (capture test_fs take_a vault files).1.1).0
    ≡ ok tt
unfolding restore capture look_up base_name persist_index delete
restored_a = refl

restore-capture_example :
    (restore test_fs
      (codes "7f")
      (capture test_fs take_a vault files).1.0
      (capture test_fs take_a vault files).1.1).1.0
    ≡ vault
restore-capture_example =
    restore-capture test_fs take_a vault item_a files (capture test_fs take_a vault files).1.1
      not_there captured_a (omega arith) restored_a

purge_expired-KeepsUnexpired_example :
    let after = purge_expired test_fs (pos 2000) vault_a files in
    KeepsUnexpired (pos 2000) vault_a.items after.1.0.items
    × CountsGone test_fs vault_a.items after.1.0.items after.0
purge_expired-KeepsUnexpired_example = purge_expired-KeepsUnexpired test_fs (pos 2000) vault_a files

-- The file is back at its place.
restored_a_file :
    (restore test_fs
      (codes "7f")
      (capture test_fs take_a vault files).1.0
      (capture test_fs take_a vault files).1.1).1.1
    ≡ (codes "Q/index.json", index_text [])
      ∷ (codes "C:/tmp/a.txt", codes "hello")
      ∷ (codes "Q/index.json", index_text (item_a ∷ []))
      ∷ []
unfolding restore capture look_up base_name persist_index delete index_text
restored_a_file = refl
