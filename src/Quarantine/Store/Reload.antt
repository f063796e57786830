-- ===== src/Quarantine/Store/Reload.antt =====
-- A quarantine that starts up behind a request that succeeded finds the items of the one before.
use Prim.Native.String.{String}
use mathlib.Core.Path.{subst}
use vaulkeeper.Fs.{FileSystem}
use vaulkeeper.Prelude.{
  Bool, Bool-cases, Option, ap, arith, inl, inr, none, refl, some, true, ◌<◌, ◌^◌, ◌∙◌, ◌≡◌,
}
use vaulkeeper.Prelude.Bytes.{Bytes}
use vaulkeeper.Quarantine.Index.{QuarantineItem, index_text, stored_total}
use vaulkeeper.Quarantine.Index.ReadFields.{AllStorable}
use vaulkeeper.Quarantine.Index.RoundTrip.{load_text-index_text}
use vaulkeeper.Quarantine.Store.{
  Capture, Quarantine, after_move_back, after_move_in, answer, capture, captured_item, discard,
  discard_found, find_item, fresh, index_file, initialize, keep, let_go, load_index, persist_index,
  persisted, purge_expired, purge_loop, restore, restore_found, size_of, with_target,
}
use vaulkeeper.Quarantine.Store.Accounting.{Exact, run-Exact}
use vaulkeeper.Quarantine.Store.Requests.{
  HasRoom, Request, capture_file, discard_item, forget, purge, restore_item, run, start_up, status,
}
use vaulkeeper.Util.Error.{Result, err, fail, io_error, ok}

-- What files do: what was written is read, and making directories leaves files as they are.
pub record KeepsFiles {Disk : Type 0} (fs : FileSystem Disk) : Type 0 where
  pub read_written :
      (path text : Bytes) (disk disk' : Disk)
      → fs.write_file path text disk ≡ some disk'
      → fs.read_file path disk' ≡ some text
  pub exists_written :
      (path text : Bytes) (disk disk' : Disk)
      → fs.write_file path text disk ≡ some disk'
      → fs.exists path disk' ≡ true
  pub read_created :
      (path dir : Bytes) (disk : Disk)
      → fs.read_file path (fs.create_directories dir disk).1 ≡ fs.read_file path disk
  pub exists_created :
      (path dir : Bytes) (disk : Disk)
      → fs.exists path disk ≡ true
      → fs.exists path (fs.create_directories dir disk).1 ≡ true

module _ {Disk : Type 0} (fs : FileSystem Disk) (keeps : KeepsFiles fs) where
  -- The index on the disk is that of the items.
  abbrev Saved : Quarantine × Disk → Type 0
  Saved (q, disk) =
      (fs.read_file (index_file fs q) disk ≡ some (index_text q.items))
      × (fs.exists (index_file fs q) disk ≡ true)

  abbrev SavedIfOk : Result (Unit {0}) → Quarantine × Disk → Type 0
  SavedIfOk (ok _) s = Saved s
  SavedIfOk (err _) s = Unit

  persisted-SavedIfOk {ℓ} :
      {A : Type ℓ} (a : A) (q : Quarantine) (disk : Disk)
      → SavedIfOk (forget fs (persisted fs a q disk).0) (persisted fs a q disk).1
  unfolding persist_index
  persisted-SavedIfOk a q disk =
      written (fs.write_file (index_file fs q) (index_text q.items) disk) refl
    where
      written :
          (o : Option Disk)
          → fs.write_file (index_file fs q) (index_text q.items) disk ≡ o
          → let r = answer fs a q (elim o [
            | none ↦ (fail io_error "quarantine index write failed", disk)
            | some disk' ↦ (ok tt, disk')
          ]) in
            SavedIfOk (forget fs r.0) r.1
      written none h = tt
      written (some disk') h = (
        keeps.read_written (index_file fs q) (index_text q.items) disk disk' h,
        keeps.exists_written (index_file fs q) (index_text q.items) disk disk' h,
      )

  forget_lem : (r : Result (Unit {0})) → forget fs r ≡ r
  forget_lem (ok tt) = refl
  forget_lem (err e) = refl

  persisted_unit-SavedIfOk :
      (q : Quarantine) (disk : Disk)
      → SavedIfOk (persisted {0} fs tt q disk).0 (persisted {0} fs tt q disk).1
  persisted_unit-SavedIfOk q disk =
      subst (λ r. SavedIfOk r (persisted {0} fs tt q disk).1)
        (forget_lem (persisted {0} fs tt q disk).0) (persisted-SavedIfOk tt q disk)

  capture-SavedIfOk :
      (c : Capture) (q : Quarantine) (disk : Disk)
      → SavedIfOk (forget fs (capture fs c q disk).0) (capture fs c q disk).1
  unfolding capture
  capture-SavedIfOk c q disk = elim (Bool-cases (fs.exists c.source disk)) [
    | inl e ↦
        rw e (
          targeted (fs.absolute c.source disk) (fs.is_directory (fs.absolute c.source disk) disk) _)
    | inr e ↦ rw e tt
  ]
    where
      moved :
          (item : QuarantineItem) (r : Option String × Disk)
          → SavedIfOk (forget fs (after_move_in fs item q r).0) (after_move_in fs item q r).1
      moved item (some _, disk') = tt
      moved item (none, disk') = persisted-SavedIfOk item (keep fs item q) disk'

      targeted :
          (path : Bytes) (is_dir : Bool) (r : Option String × Disk)
          → SavedIfOk
              (forget fs (with_target fs c q path is_dir r).0)
              (with_target fs c q path is_dir r).1
      targeted path is_dir (some _, disk') = tt
      targeted path is_dir (none, disk') =
          moved (captured_item fs q c path (size_of fs is_dir path disk')) _

  restore-SavedIfOk :
      (item_id : Bytes) (q : Quarantine) (disk : Disk)
      → SavedIfOk (restore fs item_id q disk).0 (restore fs item_id q disk).1
  unfolding restore
  restore-SavedIfOk item_id q disk = found_item (find_item item_id q.items)
    where
      moved :
          (item : QuarantineItem) (r : Option String × Disk)
          → SavedIfOk (after_move_back fs item q r).0 (after_move_back fs item q r).1
      moved item (some _, disk') = tt
      moved item (none, disk') =
          persisted_unit-SavedIfOk (let_go fs item q) (fs.remove_all item.storage_path disk')

      found_item :
          (o : Option QuarantineItem)
          → SavedIfOk (restore_found fs q disk o).0 (restore_found fs q disk o).1
      found_item none = tt
      found_item (some item) = moved item _

  discard-SavedIfOk :
      (item_id : Bytes) (q : Quarantine) (disk : Disk)
      → SavedIfOk (discard fs item_id q disk).0 (discard fs item_id q disk).1
  unfolding discard
  discard-SavedIfOk item_id q disk = found_item (find_item item_id q.items)
    where
      found_item :
          (o : Option QuarantineItem)
          → SavedIfOk (discard_found fs q disk o).0 (discard_found fs q disk o).1
      found_item none = tt
      found_item (some item) =
          persisted_unit-SavedIfOk (let_go fs item q) (fs.remove_all item.storage_path disk)

  run-SavedIfOk :
      (r : Request) (q : Quarantine) (disk : Disk)
      → SavedIfOk (status fs r q disk) (run fs r q disk)
  unfolding status run purge_expired
  run-SavedIfOk (capture_file c) q disk = capture-SavedIfOk c q disk
  run-SavedIfOk (restore_item item_id) q disk = restore-SavedIfOk item_id q disk
  run-SavedIfOk (discard_item item_id) q disk = discard-SavedIfOk item_id q disk
  run-SavedIfOk (purge now) q disk =
      let p = purge_loop fs now q.items q.stored_bytes 0 disk in
      persisted-SavedIfOk p.removed (record q { items = p.kept; stored_bytes = p.stored }) p.disk

  load_index-Saved :
      (q : Quarantine) (disk : Disk)
      → AllStorable q.items
      → stored_total q.items < 2 ^ 64
      → Exact q
      → Saved (q, disk)
      → load_index fs (record fresh { root = q.root; retention = q.retention }) disk
        ≡ (ok tt, (q, disk))
  unfolding load_index
  load_index-Saved q disk a room x s =
      rw (s.1, s.0, load_text-index_text q.items a)
        (ap (λ n. (ok tt, (record q { stored_bytes = n }, disk))) (omega arith))

  start_up-Saved :
      (q : Quarantine) (disk : Disk)
      → (fs.create_directories q.root disk).0 ≡ none
      → AllStorable q.items
      → stored_total q.items < 2 ^ 64
      → Exact q
      → Saved (q, disk)
      → start_up fs (q, disk) ≡ (ok tt, (q, (fs.create_directories q.root disk).1))
  unfolding initialize
  start_up-Saved q disk c a room x s = rw c (
      load_index-Saved q (fs.create_directories q.root disk).1 a room x (
        keeps.read_created (index_file fs q) q.root disk ∙ s.0,
        keeps.exists_created (index_file fs q) q.root disk s.1,
      ))

  -- Behind a request that succeeded on a quarantine with an exact total, a new quarantine with the
  -- same root starts up, without an error, as the one that the request left: the same items in the
  -- same order, and the same total. The items' names and numbers must be such as the index can hold,
  -- their sizes fit 64 bits together, and the root be there.
  pub start_up-run :
      (r : Request) (q : Quarantine) (disk : Disk)
      → status fs r q disk ≡ ok tt
      → Exact q
      → HasRoom fs r q disk
      → AllStorable (run fs r q disk).0.items
      → (fs.create_directories (run fs r q disk).0.root (run fs r q disk).1).0 ≡ none
      → start_up fs (run fs r q disk) ≡ (
        ok tt,
        (
          (run fs r q disk).0,
          (fs.create_directories (run fs r q disk).0.root (run fs r q disk).1).1,
        ),
      )
  start_up-run r q disk h x room a c =
      start_up-Saved (run fs r q disk).0 (run fs r q disk).1 c a room (run-Exact fs r q disk room x)
        (subst (λ o. SavedIfOk o (run fs r q disk)) h (run-SavedIfOk r q disk))
