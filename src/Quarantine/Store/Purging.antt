-- ===== src/Quarantine/Store/Purging.antt =====
-- `purgeExpired`: what stays, and what the count is.
use vaulkeeper.Fs.{FileSystem}
use vaulkeeper.Prelude.{
  Bool-cases, List, Option, [], ap, arith, false, inl, inr, length, none, refl, some, suc, true, ℕ,
  ◌+◌, ◌∷◌, ◌≡◌, ◌⊎◌,
}
use vaulkeeper.Prelude.Int.{ℤ, ◌<ℤ◌, ◌≤ℤ◌}
use vaulkeeper.Quarantine.Index.{QuarantineItem, index_text}
use vaulkeeper.Quarantine.Store.{
  Quarantine, answer, index_file, is_expired, persist_index, persisted, purge_expired, purge_loop,
  release,
}
use vaulkeeper.Quarantine.Store.Requests.{answer-state}
use vaulkeeper.Util.Error.{Result, err, fail, io_error, make_error, ok}

-- The second list is what is left of the first, in order, without the items that expire at `now` or
-- before it, and only those.
abbrev pub KeepsUnexpired : ℤ → List QuarantineItem → List QuarantineItem → Type 0
KeepsUnexpired now [] kept = kept ≡ []
KeepsUnexpired now (q ∷ qs) kept =
    ((now <ℤ q.expires_at)
      × (rest : List QuarantineItem) × (kept ≡ q ∷ rest)
      × KeepsUnexpired now qs rest)
    ⊎ ((q.expires_at ≤ℤ now) × KeepsUnexpired now qs kept)

is_expired_true : (now : ℤ) (q : QuarantineItem) → is_expired now q ≡ true → q.expires_at ≤ℤ now
is_expired_true now q h = ground arith

is_expired_false : (now : ℤ) (q : QuarantineItem) → is_expired now q ≡ false → now <ℤ q.expires_at
is_expired_false now q h = ground arith

module _ {Disk : Type 0} (fs : FileSystem Disk) where
  purge_loop-KeepsUnexpired :
      (now : ℤ) (qs : List QuarantineItem) (stored removed : ℕ) (disk : Disk)
      → KeepsUnexpired now qs (purge_loop fs now qs stored removed disk).kept
  unfolding purge_loop
  purge_loop-KeepsUnexpired now [] stored removed disk = refl
  purge_loop-KeepsUnexpired now (q ∷ qs) stored removed disk =
      elim (Bool-cases (is_expired now q)) [
        | inl e ↦ rw e (
            inr (
              is_expired_true now q e,
              purge_loop-KeepsUnexpired now qs (release stored q.stored_size_bytes) (suc removed)
                  (fs.remove_all q.storage_path disk),
            ))
        | inr e ↦ rw e (
            inl (
              is_expired_false now q e,
              _,
              refl,
              purge_loop-KeepsUnexpired now qs stored removed disk,
            ))
      ]

  purge_loop-removed :
      (now : ℤ) (qs : List QuarantineItem) (stored removed : ℕ) (disk : Disk)
      → (purge_loop fs now qs stored removed disk).removed
          + length (purge_loop fs now qs stored removed disk).kept
        ≡ removed + length qs
  unfolding purge_loop
  purge_loop-removed now [] stored removed disk = refl
  purge_loop-removed now (q ∷ qs) stored removed disk = elim (Bool-cases (is_expired now q)) [
    | inl e ↦ rw e (
        omega (
          arith,
          purge_loop-removed now qs (release stored q.stored_size_bytes) (suc removed)
              (fs.remove_all q.storage_path disk),
        ))
    | inr e ↦ rw e (omega (arith, purge_loop-removed now qs stored removed disk))
  ]

  -- The count of a purge that reports one is that of the items gone.
  abbrev pub CountsGone : List QuarantineItem → List QuarantineItem → Result ℕ → Type 0
  CountsGone items kept (ok n) = n + length kept ≡ length items
  CountsGone items kept (err e) = e ≡ make_error io_error "quarantine index write failed"

  answered :
      (items kept : List QuarantineItem) (n : ℕ) (q : Quarantine) (disk : Disk)
      → n + length kept ≡ length items
      → CountsGone items kept (persisted fs n q disk).0
  unfolding persist_index
  answered items kept n q disk h =
      written (fs.write_file (index_file fs q) (index_text q.items) disk)
    where
      written :
          (o : Option Disk)
          → CountsGone items kept
              (answer fs n q (elim o [
                | none ↦ (fail io_error "quarantine index write failed", disk)
                | some disk' ↦ (ok tt, disk')
              ])).0
      written none = refl
      written (some disk') = h

  -- A purge keeps the items that expire behind `now`, all of them and in their order, and drops those
  -- that expire at `now` or before it, also where the index cannot be written, which is its one error;
  -- otherwise it reports how many items went.
  pub purge_expired-KeepsUnexpired :
      (now : ℤ) (q : Quarantine) (disk : Disk)
      → let after = purge_expired fs now q disk in
        KeepsUnexpired now q.items after.1.0.items × CountsGone q.items after.1.0.items after.0
  unfolding purge_expired
  purge_expired-KeepsUnexpired now q disk =
      let p = purge_loop fs now q.items q.stored_bytes 0 disk in
      let q' : Quarantine = record q { items = p.kept; stored_bytes = p.stored } in
      rw (ap (λ s. s.items) (answer-state fs p.removed q' (persist_index fs q' p.disk))) (
        purge_loop-KeepsUnexpired now q.items q.stored_bytes 0 disk,
        answered q.items p.kept p.removed q' p.disk
            (omega (arith, purge_loop-removed now q.items q.stored_bytes 0 disk)),
      )
