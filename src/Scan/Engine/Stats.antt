-- ===== src/Scan/Engine/Stats.antt =====
-- The statistics of a scan agree with its tree, its list of entries and its volumes.
use vaulkeeper.Fs.Entry.{
  FileEntry, FileKind, device, directory, hard_link, junction, offline_file, regular, symbolic_link,
  unknown_kind,
}
use vaulkeeper.Prelude.{
  Bool, List, [], arith, false, if◌then◌else◌, inl, inr, length, length-append, not, refl, true, ℕ,
  ◌%◌, ◌++◌, ◌+◌, ◌^◌, ◌∷◌, ◌≡◌,
}
use vaulkeeper.Prelude.Bytes.{Bytes}
use vaulkeeper.Scan.Engine.{
  Root, ScanResult, ScanVolumeSummary, Visit, Walk, close_volume, count_error, count_volume,
  empty_volume, index_entry, kind_from_entry, record_of, result_of, run, size_by_kind, start_walk,
  visit, walk_entries, walk_roots,
}
use vaulkeeper.Scan.Engine.Kinds.{
  IsSized, bytes_indexed-count_kind, directories_visited-count_kind, files_visited-count_kind,
  scanned_bytes-count_volume,
}
use vaulkeeper.Scan.Totals.{build}
use vaulkeeper.Scan.Totals.Built.{add-sum, one_file}
use vaulkeeper.Scan.Totals.Sums.{propagate_totals-Totals}
use vaulkeeper.Scan.Tree.{counters, fresh_builder}
use vaulkeeper.Scan.Tree.Sums.{files_of, logical_of, sum_of}
use vaulkeeper.Util.Error.{Result, err, ok}
use vaulkeeper.Util.Interner.{StringInterner}

-- The bytes of the volumes that are closed.
abbrev pub scanned_total : List ScanVolumeSummary → ℕ
scanned_total [] = 0
scanned_total (v ∷ vs) = v.scanned_bytes + scanned_total vs

scanned_total-append :
    (xs : List ScanVolumeSummary) (v : ScanVolumeSummary)
    → scanned_total (xs ++ v ∷ []) ≡ scanned_total xs + v.scanned_bytes
scanned_total-append [] v = omega arith
scanned_total-append (x ∷ xs) v = omega (arith, scanned_total-append xs v)

-- What stays true from round to round: the open volume has scanned `open_bytes` so far.
record Agrees (w : Walk) (open_bytes : ℕ) : Type 0 where
  bytes : sum_of logical_of w.builder.0 % 2 ^ 64 ≡ w.stats.bytes_indexed % 2 ^ 64
  files :
      (sum_of files_of w.builder.0 + w.stats.directories_visited) % 2 ^ 64
      ≡ w.stats.files_visited % 2 ^ 64
  entries : length w.flat_entries % 2 ^ 64 ≡ w.stats.files_visited % 2 ^ 64
  volumes : (scanned_total w.volumes + open_bytes) % 2 ^ 64 ≡ w.stats.bytes_indexed % 2 ^ 64

-- What a scan reports, in 64 bits: the bytes of the tree's root are the bytes indexed, and so are
-- those of the volumes together; its files, with the directories visited, are all that was visited,
-- which are as many as there are entries in the list.
abbrev pub Reports : Result ScanResult → Type 0
Reports (err e) = Unit
Reports (ok r) =
    let c = counters r.tree in
    (c.total_logical_bytes % 2 ^ 64 ≡ r.stats.bytes_indexed % 2 ^ 64)
    × ((scanned_total r.volumes % 2 ^ 64 ≡ r.stats.bytes_indexed % 2 ^ 64)
        × (((c.total_files + r.stats.directories_visited) % 2 ^ 64 ≡ r.stats.files_visited % 2 ^ 64)
            × (length r.flat_entries % 2 ^ 64 ≡ r.stats.files_visited % 2 ^ 64)))

module _ (segments : Bytes → List Bytes) (join : Bytes → Bytes → Bytes) (handled : Bool) where
  index_entry-Agrees :
      (v : Visit) (e : FileEntry) (st : StringInterner) (w : Walk)
      → IsSized e.kind e.logical_size
      → Agrees w w.volume.scanned_bytes
      → Agrees
          (index_entry segments join handled v e st w)
          (count_volume e.kind e.logical_size w.volume).scanned_bytes
  index_entry-Agrees v e st w s a = record {
    bytes = omega (
      arith,
      a.bytes,
      bytes_indexed-count_kind e.kind e.logical_size w.stats s,
      add-sum logical_of refl (λ x. x.logical_size) (λ x c. omega arith) segments e
          (w.builder.0, st),
    );
    files = omega (
      arith,
      a.files,
      directories_visited-count_kind e.kind e.logical_size w.stats,
      files_visited-count_kind e.kind e.logical_size w.stats,
      add-sum files_of refl one_file (λ x c. omega arith) segments e (w.builder.0, st),
    );
    entries = omega (
      arith,
      a.entries,
      files_visited-count_kind e.kind e.logical_size w.stats,
      length-append w.flat_entries (e ∷ []),
    );
    volumes = omega (
      arith,
      a.volumes,
      bytes_indexed-count_kind e.kind e.logical_size w.stats s,
      scanned_bytes-count_volume e.kind e.logical_size w.volume s,
    );
  }

  size_by_kind-IsSized : (k : FileKind) (v : Visit) → IsSized k (size_by_kind k v)
  size_by_kind-IsSized regular v = inl refl
  size_by_kind-IsSized directory v = inr refl
  size_by_kind-IsSized symbolic_link v = inr refl
  size_by_kind-IsSized junction v = inr refl
  size_by_kind-IsSized hard_link v = inr refl
  size_by_kind-IsSized offline_file v = inr refl
  size_by_kind-IsSized device v = inr refl
  size_by_kind-IsSized unknown_kind v = inr refl

  -- The walk with the volume that is open.
  abbrev AgreesOpen : Walk → Type 0
  AgreesOpen w = Agrees w w.volume.scanned_bytes

  visit-Agrees :
      (v : Visit) (w : Walk) → AgreesOpen w → AgreesOpen (visit segments join handled v w)
  unfolding visit
  visit-Agrees v w a =
      index_entry-Agrees v (record_of v _ _) _ w (size_by_kind-IsSized (kind_from_entry v) v) a

  error-Agrees : (w : Walk) → AgreesOpen w → AgreesOpen (record w { stats = count_error w.stats })
  error-Agrees w a = record {
    bytes = a.bytes;
    files = a.files;
    entries = a.entries;
    volumes = a.volumes;
  }

  if-AgreesOpen :
      (b : Bool) (w w' : Walk) → AgreesOpen w → AgreesOpen w' → AgreesOpen (if b then w else w')
  if-AgreesOpen true w w' a a' = a
  if-AgreesOpen false w w' a a' = a'

  if-Agrees : (b : Bool) (w w' : Walk) → Agrees w 0 → Agrees w' 0 → Agrees (if b then w else w') 0
  if-Agrees true w w' a a' = a
  if-Agrees false w w' a a' = a'

  walk_entries-Agrees :
      (vs : List Visit) (w : Walk)
      → AgreesOpen w
      → AgreesOpen (walk_entries segments join handled vs w)
  unfolding walk_entries
  walk_entries-Agrees [] w a = a
  walk_entries-Agrees (v ∷ vs) w a = if-AgreesOpen v.cancelled _ _ a (
      if-AgreesOpen v.failed _ _
        (walk_entries-Agrees vs (record w { stats = count_error w.stats }) (error-Agrees w a))
        (walk_entries-Agrees vs (visit segments join handled v w) (visit-Agrees v w a)))

  walk_roots-Agrees :
      (rs : List Root) (w : Walk) → Agrees w 0 → Agrees (walk_roots segments join handled rs w) 0
  unfolding walk_roots
  walk_roots-Agrees [] w a = a
  walk_roots-Agrees (r ∷ rs) w a = if-Agrees r.cancelled _ _ a (
      if-Agrees (not r.present) _ _
        (walk_roots-Agrees rs (record w { stats = count_error w.stats })
          (record { bytes = a.bytes; files = a.files; entries = a.entries; volumes = a.volumes }))
        (walk_roots-Agrees rs _ (
          closed
            (walk_entries segments join handled r.visits
              (record w { volume = empty_volume r.mount_point }))
            (walk_entries-Agrees r.visits (record w { volume = empty_volume r.mount_point })
              (record {
                bytes = a.bytes;
                files = a.files;
                entries = a.entries;
                volumes = a.volumes;
              })))))
    where
      closed : (w' : Walk) → AgreesOpen w' → Agrees (close_volume w') 0
      closed w' b = record {
        bytes = b.bytes;
        files = b.files;
        entries = b.entries;
        volumes = omega (
          arith,
          b.volumes,
          scanned_total-append w'.volumes
              (record w'.volume { total_bytes = w'.volume.scanned_bytes }),
        );
      }

  walked : (st : StringInterner) (w : Walk) → Agrees w 0 → Reports (ok (result_of w))
  unfolding build
  walked st w a =
      let t = propagate_totals-Totals w.builder.0 in
      (
        omega (arith, a.bytes, t.logical),
        (omega (arith, a.volumes), (omega (arith, a.files, t.files), a.entries)),
      )

  -- The statistics of a scan agree with its tree, its volumes and its list of entries, whatever the
  -- iterators come by and wherever it is cancelled.
  pub run-Reports :
      (roots : List Root) (st : StringInterner) → Reports (run segments join handled roots st)
  unfolding run
  run-Reports [] st = tt
  run-Reports (r ∷ rs) st =
      walked st (walk_roots segments join handled (r ∷ rs) (start_walk st))
        (walk_roots-Agrees (r ∷ rs) (start_walk st) fresh_agrees)
    where
      fresh_agrees : Agrees (start_walk st) 0
      fresh_agrees =
          unfold fresh_builder in
          unfold sum_of in record { bytes = refl; files = refl; entries = refl; volumes = refl }
