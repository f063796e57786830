-- ===== src/Quarantine/Store.antt =====
-- class `Quarantine` of src/core/quarantine/quarantine.hpp and quarantine.cpp: the items it keeps, and
-- the operations on them and on the disk.
pub mod Items
pub mod Requests
pub mod Accounting
pub mod Purging
pub mod Reload
pub mod GiveBack
use Prim.Native.Nat.{min}
use Prim.Native.String.{String}
use vaulkeeper.Fs.{FileSystem}
use vaulkeeper.Ipc.Pipe.{read_file}
use vaulkeeper.Prelude.{
  Bool, List, Option, [], false, if◌then◌else◌, none, not, some, suc, true, ℕ, ◌%◌, ◌*◌, ◌++◌, ◌+◌,
  ◌-◌, ◌^◌, ◌∷◌,
}
use vaulkeeper.Prelude.Bytes.{Bytes, bytes_eq, codes}
use vaulkeeper.Prelude.Int.{ltb_ℤ, pos, ℤ, ◌*ℤ◌, ◌+ℤ◌}
use vaulkeeper.Quarantine.Index.{Loaded, QuarantineItem, index_text, load_text}
use vaulkeeper.Util.Error.{Result, err, fail, io_error, not_found, ok}
use vaulkeeper.Util.Time.{hour}

-- `retention` counts hours.
pub record Quarantine : Type 0 where
  pub root : Bytes
  pub retention : ℤ
  pub stored_bytes : ℕ
  pub items : List QuarantineItem

-- `Quarantine() = default`.
abbrev pub fresh : Quarantine
fresh = record { root = []; retention = pos (24 * 30); stored_bytes = 0; items = [] }

-- What an operation gives back, with the state and the disk that it leaves.
abbrev pub Outcome : Type 0 → Type 0 → Type 0
Outcome Disk A = Result A × (Quarantine × Disk)

-- `storedBytes -= std::min(storedBytes, size)`.
abbrev pub release : ℕ → ℕ → ℕ
release stored size = stored - min stored size

-- `std::find_if` on the id.
unfoldable pub find_item : Bytes → List QuarantineItem → Option QuarantineItem
find_item item_id [] = none
find_item item_id (q ∷ qs) = if bytes_eq q.id item_id then some q else find_item item_id qs

-- `items.erase` at what `std::find_if` finds.
unfoldable pub erase_item : Bytes → List QuarantineItem → List QuarantineItem
erase_item item_id [] = []
erase_item item_id (q ∷ qs) =
    let rest = erase_item item_id qs in if bytes_eq q.id item_id then qs else q ∷ rest

-- `now >= expiresAt`.
abbrev pub is_expired : ℤ → QuarantineItem → Bool
is_expired now q = not (ltb_ℤ now q.expires_at)

-- The sizes of the regular files of a tree, in 64 bits.
unfoldable pub tree_size : ℕ → List (Bool × ℕ) → ℕ
tree_size n [] = n
tree_size n ((is_regular, size) ∷ es) = tree_size (if is_regular then (n + size) % 2 ^ 64 else n) es

-- The arguments of `capture`, with the id, and the two readings of the clock, that it draws.
pub record Capture : Type 0 where
  pub source : Bytes
  pub reason : Bytes
  pub correlation_id : Bytes
  pub item_id : Bytes
  pub captured_at : ℤ
  pub clock : ℤ

-- What the loop of `purgeExpired` leaves.
pub record Purge (Disk : Type 0) : Type 0 where
  pub kept : List QuarantineItem
  pub stored : ℕ
  pub removed : ℕ
  pub disk : Disk

module _ {Disk : Type 0} (fs : FileSystem Disk) where
  abbrev pub index_file : Quarantine → Bytes
  index_file q = fs.join q.root (codes "index.json")

  unfoldable pub persist_index : Quarantine → Disk → Result (Unit {0}) × Disk
  unfolding index_text
  persist_index q disk = elim (fs.write_file (index_file q) (index_text q.items) disk) [
    | none ↦ (fail io_error "quarantine index write failed", disk)
    | some disk' ↦ (ok tt, disk')
  ]

  -- `loadIndex`, behind `items.clear()`.
  abbrev pub load_raw : Quarantine → Option Loaded → Quarantine
  load_raw q none = q
  load_raw q (some l) = record q { items = l.items; stored_bytes = l.stored_bytes }

  unfoldable pub load_index : Quarantine → Disk → Outcome Disk (Unit {0})
  unfolding load_text
  load_index q disk =
      let q' : Quarantine = record q { items = []; stored_bytes = 0 } in
      if fs.exists (index_file q) disk
      then elim (fs.read_file (index_file q) disk) [
        | none ↦ (fail io_error "quarantine index read failed", (q', disk))
        | some raw ↦ (ok tt, (load_raw q' (load_text raw), disk))
      ]
      else (ok tt, (q', disk))

  abbrev pub load_if_created : Quarantine → Option String × Disk → Outcome Disk (Unit {0})
  load_if_created q (some message, disk) = (fail io_error message, (q, disk))
  load_if_created q (none, disk) = load_index q disk

  unfoldable pub initialize : Bytes → ℤ → Quarantine → Disk → Outcome Disk (Unit {0})
  unfolding load_index
  initialize root retention q disk =
      load_if_created (record q { root = root; retention = retention })
        (fs.create_directories root disk)

  -- An operation's last step: `return persistIndex()`, or the error before the value.
  abbrev pub answer {ℓ} :
      {A : Type ℓ} → A → Quarantine → Result (Unit {0}) × Disk → Result A × (Quarantine × Disk)
  answer a q (ok _, disk) = (ok a, (q, disk))
  answer a q (err e, disk) = (err e, (q, disk))

  abbrev pub persisted {ℓ} : {A : Type ℓ} → A → Quarantine → Disk → Result A × (Quarantine × Disk)
  persisted a q disk = answer a q (persist_index q disk)

  -- `originalSize`: whether the source is a directory is asked before the target is made.
  abbrev pub size_of : Bool → Bytes → Disk → ℕ
  size_of true path disk = tree_size 0 (fs.tree path disk)
  size_of false path disk = fs.file_size path disk

  abbrev pub captured_item : Quarantine → Capture → Bytes → ℕ → QuarantineItem
  captured_item q c path size = record {
    id = c.item_id;
    original_path = path;
    storage_path = fs.join q.root c.item_id;
    original_size_bytes = size;
    stored_size_bytes = size;
    captured_at = c.captured_at;
    expires_at = c.clock +ℤ (q.retention *ℤ hour);
    compressed = false;
    reason = c.reason;
    correlation_id = c.correlation_id;
  }

  abbrev pub keep : QuarantineItem → Quarantine → Quarantine
  keep item q = record q {
    items = q.items ++ item ∷ [];
    stored_bytes = (q.stored_bytes + item.stored_size_bytes) % 2 ^ 64;
  }

  abbrev pub let_go : QuarantineItem → Quarantine → Quarantine
  let_go item q = record q {
    items = erase_item item.id q.items;
    stored_bytes = release q.stored_bytes item.stored_size_bytes;
  }

  -- `capture` from its rename on.
  abbrev pub after_move_in :
      QuarantineItem → Quarantine → Option String × Disk → Outcome Disk QuarantineItem
  after_move_in item q (some message, disk) =
      (fail io_error message, (q, fs.remove_all item.storage_path disk))
  after_move_in item q (none, disk) = persisted item (keep item q) disk

  abbrev pub move_in : QuarantineItem → Quarantine → Disk → Outcome Disk QuarantineItem
  move_in item q disk = after_move_in item q (
      fs.rename item.original_path (fs.join item.storage_path (fs.filename item.original_path))
        disk)

  abbrev pub with_target :
      Capture → Quarantine → Bytes → Bool → Option String × Disk → Outcome Disk QuarantineItem
  with_target c q path is_dir (some message, disk) = (fail io_error message, (q, disk))
  with_target c q path is_dir (none, disk) =
      move_in (captured_item q c path (size_of is_dir path disk)) q disk

  unfoldable pub capture : Capture → Quarantine → Disk → Outcome Disk QuarantineItem
  unfolding tree_size persist_index ◌+ℤ◌ ◌*ℤ◌
  capture c q disk =
      let path = fs.absolute c.source disk in
      if not (fs.exists c.source disk)
      then (fail not_found "source does not exist", (q, disk))
      else with_target c q path (fs.is_directory path disk)
          (fs.create_directories (fs.join q.root c.item_id) disk)

  -- `restore` from its rename on.
  abbrev pub after_move_back :
      QuarantineItem → Quarantine → Option String × Disk → Outcome Disk (Unit {0})
  after_move_back item q (some message, disk) = (fail io_error message, (q, disk))
  after_move_back item q (none, disk) =
      persisted tt (let_go item q) (fs.remove_all item.storage_path disk)

  abbrev pub move_back : QuarantineItem → Quarantine → Disk → Outcome Disk (Unit {0})
  move_back item q disk = after_move_back item q (
      fs.rename (fs.join item.storage_path (fs.filename item.original_path)) item.original_path
        (fs.create_directories (fs.parent_path item.original_path) disk).1)

  abbrev pub restore_found : Quarantine → Disk → Option QuarantineItem → Outcome Disk (Unit {0})
  restore_found q disk none = (fail not_found "quarantine item not found", (q, disk))
  restore_found q disk (some item) = move_back item q disk

  unfoldable pub restore : Bytes → Quarantine → Disk → Outcome Disk (Unit {0})
  unfolding find_item erase_item persist_index
  restore item_id q disk = restore_found q disk (find_item item_id q.items)

  abbrev pub discard_found : Quarantine → Disk → Option QuarantineItem → Outcome Disk (Unit {0})
  discard_found q disk none = (fail not_found "quarantine item not found", (q, disk))
  discard_found q disk (some item) =
      persisted tt (let_go item q) (fs.remove_all item.storage_path disk)

  unfoldable pub discard : Bytes → Quarantine → Disk → Outcome Disk (Unit {0})
  unfolding find_item erase_item persist_index
  discard item_id q disk = discard_found q disk (find_item item_id q.items)

  -- The loop of `purgeExpired`: what is kept, the stored total, the count and the disk.
  unfoldable pub purge_loop : ℤ → List QuarantineItem → ℕ → ℕ → Disk → Purge Disk
  purge_loop now [] stored removed disk = record {
    kept = [];
    stored = stored;
    removed = removed;
    disk = disk;
  }
  purge_loop now (q ∷ qs) stored removed disk =
      let gone =
        purge_loop now qs (release stored q.stored_size_bytes) (suc removed)
          (fs.remove_all q.storage_path disk) in
      let stays = purge_loop now qs stored removed disk in
      if is_expired now q then gone else record stays { kept = q ∷ stays.kept }

  unfoldable pub purge_expired : ℤ → Quarantine → Disk → Outcome Disk ℕ
  unfolding purge_loop persist_index
  purge_expired now q disk =
      let p = purge_loop now q.items q.stored_bytes 0 disk in
      persisted p.removed (record q { items = p.kept; stored_bytes = p.stored }) p.disk
