-- ===== src/Quarantine/Store/GiveBack.antt =====
-- A file that was captured and is let go again leaves no trace in the quarantine.
use Prim.Native.String.{String}
use mathlib.Core.Option.{none-ne-some}
use mathlib.Core.Path.{subst}
use vaulkeeper.Fs.{FileSystem}
use vaulkeeper.Prelude.{
  Bool, Bool-cases, List, Option, [], ap, arith, inl, inr, none, refl, some, sym, ◌++◌, ◌+◌, ◌<◌,
  ◌^◌, ◌∙◌, ◌∷◌, ◌≡◌,
}
use vaulkeeper.Prelude.Bytes.{Bytes, bytes_eq, bytes_eq_self}
use vaulkeeper.Quarantine.Index.{QuarantineItem}
use vaulkeeper.Quarantine.Store.{
  Capture, Quarantine, after_move_back, after_move_in, answer, capture, captured_item, discard,
  erase_item, find_item, keep, let_go, persist_index, restore, size_of, with_target,
}
use vaulkeeper.Quarantine.Store.Requests.{answer-state}
use vaulkeeper.Util.Error.{Error, Result, err, io_error, make_error, ok}

erase_item-append :
    (item_id : Bytes) (items : List QuarantineItem) (item : QuarantineItem)
    → find_item item_id items ≡ none
    → item.id ≡ item_id
    → (erase_item item_id (items ++ item ∷ []) ≡ items)
      × (find_item item_id (items ++ item ∷ []) ≡ some item)
unfolding find_item erase_item
erase_item-append item_id [] item h e = rw (e, bytes_eq_self item_id) (refl, refl)
erase_item-append item_id (q ∷ qs) item h e = elim (Bool-cases (bytes_eq q.id item_id)) [
  | inl b ↦ absurd (none-ne-some q (sym (rw b at h)))
  | inr b ↦
      let ih = erase_item-append item_id qs item (rw b at h) e in
      rw b (ap (λ xs. q ∷ xs) ih.0, ih.1)
]

err-ne-ok : (e : Error) → (◌≡◌ {A = Result (Unit {0})} (err e) (ok tt)) → ⊥
err-ne-ok e h = cc

module _ {Disk : Type 0} (fs : FileSystem Disk) (c : Capture) (q : Quarantine) where
  abbrev KeptIfOk : Result QuarantineItem → Quarantine → Type 0
  KeptIfOk (ok item) q' = (q' ≡ keep fs item q) × (item.id ≡ c.item_id)
  KeptIfOk (err e) q' = Unit

  capture-KeptIfOk : (disk : Disk) → KeptIfOk (capture fs c q disk).0 (capture fs c q disk).1.0
  unfolding capture
  capture-KeptIfOk disk = elim (Bool-cases (fs.exists c.source disk)) [
    | inl e ↦
        rw e (
          targeted (fs.absolute c.source disk) (fs.is_directory (fs.absolute c.source disk) disk) _)
    | inr e ↦ rw e tt
  ]
    where
      answered :
          (item : QuarantineItem) (r : Result (Unit {0}) × Disk)
          → item.id ≡ c.item_id
          → KeptIfOk (answer fs item (keep fs item q) r).0 (answer fs item (keep fs item q) r).1.0
      answered item (ok _, disk') h = (refl, h)
      answered item (err _, disk') h = tt

      moved :
          (item : QuarantineItem) (r : Option String × Disk)
          → item.id ≡ c.item_id
          → KeptIfOk (after_move_in fs item q r).0 (after_move_in fs item q r).1.0
      moved item (some _, disk') h = tt
      moved item (none, disk') h = answered item (persist_index fs (keep fs item q) disk') h

      targeted :
          (path : Bytes) (is_dir : Bool) (r : Option String × Disk)
          → KeptIfOk (with_target fs c q path is_dir r).0 (with_target fs c q path is_dir r).1.0
      targeted path is_dir (some _, disk') = tt
      targeted path is_dir (none, disk') =
          moved (captured_item fs q c path (size_of fs is_dir path disk')) _ refl

  let_go-keep :
      (item : QuarantineItem)
      → find_item item.id q.items ≡ none
      → q.stored_bytes + item.stored_size_bytes < 2 ^ 64
      → let_go fs item (keep fs item q) ≡ q
  let_go-keep item h room =
      rw ((erase_item-append item.id q.items item h refl).0)
        (ap (λ n. record q { stored_bytes = n }) (omega arith))

  -- The quarantine behind a capture, and what it finds under the item's id.
  captured :
      (item : QuarantineItem) (disk : Disk)
      → find_item c.item_id q.items ≡ none
      → (capture fs c q disk).0 ≡ ok item
      → q.stored_bytes + item.stored_size_bytes < 2 ^ 64
      → ((capture fs c q disk).1.0 ≡ keep fs item q)
        × ((find_item c.item_id (keep fs item q).items ≡ some item)
            × (let_go fs item (keep fs item q) ≡ q))
  captured item disk h k room =
      let kept : KeptIfOk (ok item) (capture fs c q disk).1.0 =
        subst (λ r. KeptIfOk r (capture fs c q disk).1.0) k (capture-KeptIfOk disk) in
      (
        kept.0,
        (
          (erase_item-append c.item_id q.items item h kept.1).1,
          let_go-keep item (rw kept.1 h) room,
        ),
      )

  -- What is discarded behind its capture, whatever happened to the disk in between, leaves the
  -- quarantine as it was before the capture, if no item had its id and the total did not overflow.
  pub discard-capture :
      (item : QuarantineItem) (disk disk' : Disk)
      → find_item c.item_id q.items ≡ none
      → (capture fs c q disk).0 ≡ ok item
      → q.stored_bytes + item.stored_size_bytes < 2 ^ 64
      → (discard fs c.item_id (capture fs c q disk).1.0 disk').1.0 ≡ q
  unfolding discard
  discard-capture item disk disk' h k room =
      let (same, (found_it, gone)) = captured item disk h k room in
      rw (same, found_it)
        (answer-state fs tt (let_go fs item (keep fs item q)) (
            persist_index fs (let_go fs item (keep fs item q))
              (fs.remove_all item.storage_path disk'))
          ∙ gone)

  -- The same for what is restored, if the file could be moved back.
  pub restore-capture :
      (item : QuarantineItem) (disk disk' : Disk)
      → find_item c.item_id q.items ≡ none
      → (capture fs c q disk).0 ≡ ok item
      → q.stored_bytes + item.stored_size_bytes < 2 ^ 64
      → (restore fs c.item_id (capture fs c q disk).1.0 disk').0 ≡ ok tt
      → (restore fs c.item_id (capture fs c q disk).1.0 disk').1.0 ≡ q
  unfolding restore
  restore-capture item disk disk' h k room =
      let (same, (found_it, gone)) = captured item disk h k room in
      rw (same, found_it) (moved _ gone)
    where
      moved :
          (r : Option String × Disk)
          → let_go fs item (keep fs item q) ≡ q
          → (after_move_back fs item (keep fs item q) r).0 ≡ ok tt
          → (after_move_back fs item (keep fs item q) r).1.0 ≡ q
      moved (some message, disk'') gone k' = absurd (err-ne-ok (make_error io_error message) k')
      moved (none, disk'') gone k' =
          answer-state fs tt (let_go fs item (keep fs item q)) (
            persist_index fs (let_go fs item (keep fs item q))
              (fs.remove_all item.storage_path disk''))
          ∙ gone
