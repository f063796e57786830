-- ===== src/Quarantine/Store/Accounting.antt =====
-- `totalStoredBytes`: the running sum is the sum of the stored sizes, whatever operations come.
use Prim.Native.String.{String}
use mathlib.Core.Path.{subst}
use vaulkeeper.Fs.{FileSystem}
use vaulkeeper.Prelude.{
  Bool, Bool-cases, List, Option, [], arith, inl, inr, none, refl, some, suc, sym, ℕ, ◌+◌, ◌<◌, ◌^◌,
  ◌∷◌, ◌≡◌, ◌≤◌,
}
use vaulkeeper.Prelude.Bytes.{Bytes}
use vaulkeeper.Prelude.Int.{ℤ}
use vaulkeeper.Quarantine.Index.{QuarantineItem, stored_total}
use vaulkeeper.Quarantine.Store.{
  Capture, Quarantine, after_move_back, after_move_in, capture, captured_item, discard,
  discard_found, find_item, is_expired, keep, let_go, persist_index, persisted, purge_expired,
  purge_loop, release, restore, restore_found, size_of, with_target,
}
use vaulkeeper.Quarantine.Store.Items.{find_item-id, stored_total-append, stored_total-erase_item}
use vaulkeeper.Quarantine.Store.Requests.{
  HasRoom, Request, Runs, answer-state, capture_file, discard_item, no_request, purge, request_then,
  restore_item, run,
}

-- The sum is not off by anything, nor wrapped.
abbrev pub Exact : Quarantine → Type 0
Exact q = q.stored_bytes ≡ stored_total q.items

-- What `purgeExpired` keeps is still what is counted.
purge_loop-Exact :
    {Disk : Type 0} (fs : FileSystem Disk) (now : ℤ) (qs : List QuarantineItem) (stored removed : ℕ)
    (disk : Disk)
    → stored_total qs ≤ stored
    → (purge_loop fs now qs stored removed disk).stored + stored_total qs
      ≡ stored + stored_total (purge_loop fs now qs stored removed disk).kept
unfolding purge_loop stored_total
purge_loop-Exact fs now [] stored removed disk h = omega arith
purge_loop-Exact fs now (q ∷ qs) stored removed disk h = elim (Bool-cases (is_expired now q)) [
  | inl e ↦ rw e (
      omega (
        arith,
        purge_loop-Exact fs now qs (release stored q.stored_size_bytes) (suc removed)
            (fs.remove_all q.storage_path disk) (omega arith),
      ))
  | inr e ↦ rw e (omega (arith, purge_loop-Exact fs now qs stored removed disk (omega arith)))
]

module _ {Disk : Type 0} (fs : FileSystem Disk) where
  persisted-Exact {ℓ} :
      {A : Type ℓ} (a : A) (q : Quarantine) (disk : Disk)
      → Exact q
      → Exact (persisted fs a q disk).1.0
  persisted-Exact a q disk x = subst Exact (sym (answer-state fs a q (persist_index fs q disk))) x

  let_go-Exact :
      (item_id : Bytes) (item : QuarantineItem) (q : Quarantine)
      → find_item item_id q.items ≡ some item
      → Exact q
      → Exact (let_go fs item q)
  let_go-Exact item_id item q h x =
      rw (find_item-id item_id q.items item h)
        (omega (arith, stored_total-erase_item item_id q.items item h))

  discard-Exact :
      (item_id : Bytes) (q : Quarantine) (disk : Disk)
      → Exact q
      → Exact (discard fs item_id q disk).1.0
  unfolding discard
  discard-Exact item_id q disk x = found_item (find_item item_id q.items) refl
    where
      found_item :
          (o : Option QuarantineItem)
          → find_item item_id q.items ≡ o
          → Exact (discard_found fs q disk o).1.0
      found_item none h = x
      found_item (some item) h =
          persisted-Exact tt (let_go fs item q) (fs.remove_all item.storage_path disk)
            (let_go-Exact item_id item q h x)

  restore-Exact :
      (item_id : Bytes) (q : Quarantine) (disk : Disk)
      → Exact q
      → Exact (restore fs item_id q disk).1.0
  unfolding restore
  restore-Exact item_id q disk x = found_item (find_item item_id q.items) refl
    where
      moved :
          (item : QuarantineItem) (r : Option String × Disk)
          → find_item item_id q.items ≡ some item
          → Exact (after_move_back fs item q r).1.0
      moved item (some _, disk') h = x
      moved item (none, disk') h =
          persisted-Exact tt (let_go fs item q) (fs.remove_all item.storage_path disk')
            (let_go-Exact item_id item q h x)

      found_item :
          (o : Option QuarantineItem)
          → find_item item_id q.items ≡ o
          → Exact (restore_found fs q disk o).1.0
      found_item none h = x
      found_item (some item) h = moved item _ h

  keep-Exact :
      (item : QuarantineItem) (q : Quarantine)
      → stored_total (keep fs item q).items < 2 ^ 64
      → Exact q
      → Exact (keep fs item q)
  unfolding stored_total
  keep-Exact item q h x = omega (arith, stored_total-append q.items (item ∷ []))

  capture-Exact :
      (c : Capture) (q : Quarantine) (disk : Disk)
      → stored_total (capture fs c q disk).1.0.items < 2 ^ 64
      → Exact q
      → Exact (capture fs c q disk).1.0
  unfolding capture
  capture-Exact c q disk room x = elim (Bool-cases (fs.exists c.source disk)) [
    | inl e ↦ rw e (
        targeted (fs.absolute c.source disk) (fs.is_directory (fs.absolute c.source disk) disk) _
          (rw e at room))
    | inr e ↦ rw e x
  ]
    where
      moved :
          (item : QuarantineItem) (r : Option String × Disk)
          → stored_total (after_move_in fs item q r).1.0.items < 2 ^ 64
          → Exact (after_move_in fs item q r).1.0
      moved item (some _, disk') h = x
      moved item (none, disk') h = persisted-Exact item (keep fs item q) disk' (
          keep-Exact item q
            (rw (answer-state fs item (keep fs item q) (persist_index fs (keep fs item q) disk')) at
              h)
            x)

      targeted :
          (path : Bytes) (is_dir : Bool) (r : Option String × Disk)
          → stored_total (with_target fs c q path is_dir r).1.0.items < 2 ^ 64
          → Exact (with_target fs c q path is_dir r).1.0
      targeted path is_dir (some _, disk') h = x
      targeted path is_dir (none, disk') h =
          moved (captured_item fs q c path (size_of fs is_dir path disk')) _ h

  purge_expired-Exact :
      (now : ℤ) (q : Quarantine) (disk : Disk) → Exact q → Exact (purge_expired fs now q disk).1.0
  unfolding purge_expired
  purge_expired-Exact now q disk x =
      let p = purge_loop fs now q.items q.stored_bytes 0 disk in
      persisted-Exact p.removed (record q { items = p.kept; stored_bytes = p.stored }) p.disk
        (omega (arith, purge_loop-Exact fs now q.items q.stored_bytes 0 disk (omega arith)))

  pub run-Exact :
      (r : Request) (q : Quarantine) (disk : Disk)
      → HasRoom fs r q disk
      → Exact q
      → Exact (run fs r q disk).0
  unfolding run
  run-Exact (capture_file c) q disk room x = capture-Exact c q disk room x
  run-Exact (restore_item item_id) q disk room x = restore-Exact item_id q disk x
  run-Exact (discard_item item_id) q disk room x = discard-Exact item_id q disk x
  run-Exact (purge now) q disk room x = purge_expired-Exact now q disk x

  -- Captures, restores, discards and purges, in any order and however the disk answers, leave the
  -- running total at the sum of the stored sizes of the items kept, if it was there at the start and
  -- that sum stays below 2^64.
  pub Runs-Exact :
      {q : Quarantine} {disk : Disk} {q' : Quarantine} {disk' : Disk}
      → Runs fs q disk q' disk'
      → Exact q
      → Exact q'
  Runs-Exact no_request x = x
  Runs-Exact (request_then {q} {disk} r room rest) x = Runs-Exact rest (run-Exact r q disk room x)
