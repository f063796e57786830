-- ===== src/Scan/Engine.antt =====
-- `ScanEngine::run` and `walkWithFilesystem` of src/core/scan/scan_engine.cpp. What the directory
-- iterators come by, and what each reading of `cancelRequested` gives, is the argument `roots`.
pub mod Kinds
pub mod Stats
use vaulkeeper.Fs.Entry.{
  FileEntry, FileKind, directory, empty_entry, regular, symbolic_link, unknown_kind,
}
use vaulkeeper.Prelude.{
  Bool, List, Option, [], if◌then◌else◌, none, not, some, ℕ, ◌%◌, ◌&&◌, ◌++◌, ◌+◌, ◌==◌, ◌^◌, ◌∷◌,
}
use vaulkeeper.Prelude.Bytes.{Bytes}
use vaulkeeper.Prelude.Int.{pos, ℤ}
use vaulkeeper.Scan.Totals.{build}
use vaulkeeper.Scan.Tree.{ScanNode, add, fresh_builder}
use vaulkeeper.Util.Error.{Result, fail, invalid_argument, ok}
use vaulkeeper.Util.Interner.{StringInterner, intern}

-- One round of the inner loop: an entry, and what is found out about it.
pub record Visit : Type 0 where
  pub cancelled : Bool
  -- The iterator reports an error.
  pub failed : Bool
  pub parent : Bytes
  pub leaf_name : Bytes
  pub is_symlink : Bool
  pub is_directory : Bool
  pub is_regular : Bool
  pub file_size : Option ℕ
  pub last_write : Option ℤ

-- One round of the outer loop.
pub record Root : Type 0 where
  pub mount_point : Bytes
  pub cancelled : Bool
  pub present : Bool
  pub visits : List Visit

pub record ScanVolumeSummary : Type 0 where
  pub mount_point : Bytes
  pub total_bytes : ℕ
  pub free_bytes : ℕ
  pub scanned_bytes : ℕ
  pub file_count : ℕ
  pub directory_count : ℕ

pub record ScanStatistics : Type 0 where
  pub files_visited : ℕ
  pub files_indexed : ℕ
  pub directories_visited : ℕ
  pub bytes_indexed : ℕ
  pub errors : ℕ

-- A call of the progress handler, without the time.
pub record ScanProgress : Type 0 where
  pub files_visited : ℕ
  pub directories_visited : ℕ
  pub bytes_indexed : ℕ
  pub current_path : Bytes

-- What the loops carry. The volume is that of the root at hand.
pub record Walk : Type 0 where
  pub stats : ScanStatistics
  pub volume : ScanVolumeSummary
  pub volumes : List ScanVolumeSummary
  pub builder : ScanNode × StringInterner
  pub flat_entries : List FileEntry
  pub reports : List ScanProgress

abbrev pub empty_volume : Bytes → ScanVolumeSummary
empty_volume mount_point = record {
  mount_point = mount_point;
  total_bytes = 0;
  free_bytes = 0;
  scanned_bytes = 0;
  file_count = 0;
  directory_count = 0;
}

abbrev pub no_statistics : ScanStatistics
no_statistics = record {
  files_visited = 0;
  files_indexed = 0;
  directories_visited = 0;
  bytes_indexed = 0;
  errors = 0;
}

abbrev pub kind_from_entry : Visit → FileKind
kind_from_entry v =
    if v.is_symlink
    then symbolic_link
    else if v.is_directory
    then directory
    else if v.is_regular
    then regular
    else unknown_kind

abbrev pub size_or_zero : Option ℕ → ℕ
size_or_zero none = 0
size_or_zero (some n) = n

abbrev pub time_or_zero : Option ℤ → ℤ
time_or_zero none = pos 0
time_or_zero (some t) = t

abbrev pub size_by_kind : FileKind → Visit → ℕ
size_by_kind regular v = size_or_zero v.file_size
size_by_kind _ v = 0

-- What the kind of an entry adds to the statistics and to its volume.
abbrev pub count_kind : FileKind → ℕ → ScanStatistics → ScanStatistics
count_kind regular size st = record st {
  files_indexed = (st.files_indexed + 1) % 2 ^ 64;
  bytes_indexed = (st.bytes_indexed + size) % 2 ^ 64;
}
count_kind directory size st = record st {
  directories_visited = (st.directories_visited + 1) % 2 ^ 64;
}
count_kind _ size st = st

abbrev pub count_volume : FileKind → ℕ → ScanVolumeSummary → ScanVolumeSummary
count_volume regular size vol = record vol {
  scanned_bytes = (vol.scanned_bytes + size) % 2 ^ 64;
  file_count = (vol.file_count + 1) % 2 ^ 64;
}
count_volume directory size vol = record vol {
  directory_count = (vol.directory_count + 1) % 2 ^ 64;
}
count_volume _ size vol = vol

abbrev pub count_visit : ScanStatistics → ScanStatistics
count_visit st = record st { files_visited = (st.files_visited + 1) % 2 ^ 64 }

abbrev pub count_error : ScanStatistics → ScanStatistics
count_error st = record st { errors = (st.errors + 1) % 2 ^ 32 }

abbrev pub progress_of : ScanStatistics → Bytes → ScanProgress
progress_of st path = record {
  files_visited = st.files_visited;
  directories_visited = st.directories_visited;
  bytes_indexed = st.bytes_indexed;
  current_path = path;
}

-- `(filesVisited & 0x3FFu) == 0 && progress`.
abbrev pub report : Bool → ScanStatistics → Bytes → List ScanProgress → List ScanProgress
report handled st path reports =
    if st.files_visited % 1024 == 0 && handled then reports ++ progress_of st path ∷ [] else reports

-- The record of an entry, with the handles of its names.
abbrev pub record_of : Visit → ℕ → ℕ → FileEntry
record_of v parent name =
    let kind = kind_from_entry v in
    record empty_entry {
      parent_path = parent;
      name = name;
      kind = kind;
      logical_size = size_by_kind kind v;
      size_on_disk = size_by_kind kind v;
      modified_at = time_or_zero v.last_write;
    }

abbrev pub close_volume : Walk → Walk
close_volume w = record w {
  volumes = w.volumes ++ record w.volume { total_bytes = w.volume.scanned_bytes } ∷ [];
}

pub record ScanResult : Type 0 where
  pub stats : ScanStatistics
  pub volumes : List ScanVolumeSummary
  pub tree : ScanNode
  pub flat_entries : List FileEntry

abbrev pub start_walk : StringInterner → Walk
start_walk st = record {
  stats = no_statistics;
  volume = empty_volume [];
  volumes = [];
  builder = fresh_builder st;
  flat_entries = [];
  reports = [];
}

abbrev pub result_of : Walk → ScanResult
result_of w = record {
  stats = w.stats;
  volumes = w.volumes;
  tree = build w.builder;
  flat_entries = w.flat_entries;
}

-- How `std::filesystem::path` takes a path apart and joins one, and whether a handler is set.
module _ (segments : Bytes → List Bytes) (join : Bytes → Bytes → Bytes) (handled : Bool) where
  -- What a round does with an entry whose names are interned.
  abbrev pub index_entry : Visit → FileEntry → StringInterner → Walk → Walk
  index_entry v e st w =
      let stats = count_visit (count_kind e.kind e.logical_size w.stats) in
      record w {
        stats = stats;
        volume = count_volume e.kind e.logical_size w.volume;
        builder = add segments e (w.builder.0, st);
        flat_entries = w.flat_entries ++ e ∷ [];
        reports = report handled stats (join v.parent v.leaf_name) w.reports;
      }

  unfoldable pub visit : Visit → Walk → Walk
  unfolding add intern
  visit v w =
      let (parent, st) = intern v.parent w.builder.1 in
      let (name, st') = intern v.leaf_name st in index_entry v (record_of v parent name) st' w

  unfoldable pub walk_entries : List Visit → Walk → Walk
  unfolding visit
  walk_entries [] w = w
  walk_entries (v ∷ vs) w =
      let skipped = walk_entries vs (record w { stats = count_error w.stats }) in
      let later = walk_entries vs (visit v w) in
      if v.cancelled then w else if v.failed then skipped else later

  unfoldable pub walk_roots : List Root → Walk → Walk
  unfolding walk_entries
  walk_roots [] w = w
  walk_roots (r ∷ rs) w =
      let absent = walk_roots rs (record w { stats = count_error w.stats }) in
      let later =
        walk_roots rs (
          close_volume
            (walk_entries r.visits (record w { volume = empty_volume r.mount_point }))) in
      if r.cancelled then w else if not r.present then absent else later

  -- `ScanEngine::run`, with the interner that all share.
  unfoldable pub run : List Root → StringInterner → Result ScanResult
  unfolding walk_roots fresh_builder build
  run [] st = fail invalid_argument "scan requires at least one root"
  run (r ∷ rs) st = ok (result_of (walk_roots (r ∷ rs) (start_walk st)))
