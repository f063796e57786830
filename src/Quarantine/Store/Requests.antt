-- ===== src/Quarantine/Store/Requests.antt =====
-- The requests that the quarantine serves, as one step and as runs of steps.
use vaulkeeper.Fs.{FileSystem}
use vaulkeeper.Prelude.{refl, ◌<◌, ◌^◌, ◌≡◌}
use vaulkeeper.Prelude.Bytes.{Bytes}
use vaulkeeper.Prelude.Int.{ℤ}
use vaulkeeper.Quarantine.Index.{stored_total}
use vaulkeeper.Quarantine.Store.{
  Capture, Outcome, Quarantine, answer, capture, discard, fresh, initialize, purge_expired, restore,
}
use vaulkeeper.Util.Error.{Result, err, ok}

-- One request to the quarantine.
pub data Request : Type 0 where
  capture_file : Capture → Request
  restore_item : Bytes → Request
  discard_item : Bytes → Request
  purge : ℤ → Request

module _ {Disk : Type 0} (fs : FileSystem Disk) where
  unfoldable pub run : Request → Quarantine → Disk → Quarantine × Disk
  unfolding capture restore discard purge_expired
  run (capture_file c) q disk = (capture fs c q disk).1
  run (restore_item item_id) q disk = (restore fs item_id q disk).1
  run (discard_item item_id) q disk = (discard fs item_id q disk).1
  run (purge now) q disk = (purge_expired fs now q disk).1

  -- Whether a request succeeded.
  abbrev pub forget {ℓ} : {A : Type ℓ} → Result A → Result (Unit {0})
  forget (ok _) = ok tt
  forget (err e) = err e

  unfoldable pub status : Request → Quarantine → Disk → Result (Unit {0})
  unfolding capture restore discard purge_expired
  status (capture_file c) q disk = forget (capture fs c q disk).0
  status (restore_item item_id) q disk = (restore fs item_id q disk).0
  status (discard_item item_id) q disk = (discard fs item_id q disk).0
  status (purge now) q disk = forget (purge_expired fs now q disk).0

  -- The sizes of what is kept then still fit 64 bits.
  abbrev pub HasRoom : Request → Quarantine → Disk → Type 0
  HasRoom r q disk = stored_total (run r q disk).0.items < 2 ^ 64

  -- Runs of requests, one after the other.
  pub data Runs : Quarantine → Disk → Quarantine → Disk → Type 0 where
    no_request : {q : Quarantine} {disk : Disk} → Runs q disk q disk
    request_then :
        {q : Quarantine} {disk : Disk} {q' : Quarantine} {disk' : Disk} (r : Request)
        → HasRoom r q disk
        → Runs (run r q disk).0 (run r q disk).1 q' disk'
        → Runs q disk q' disk'

  -- A new quarantine on the disk that a request left.
  abbrev pub start_up : Quarantine × Disk → Outcome Disk (Unit {0})
  start_up (q, disk) = initialize fs q.root q.retention fresh disk

  pub answer-state {ℓ} :
      {A : Type ℓ} (a : A) (q : Quarantine) (r : Result (Unit {0}) × Disk)
      → (answer fs a q r).1.0 ≡ q
  answer-state a q (ok _, disk) = refl
  answer-state a q (err _, disk) = refl
