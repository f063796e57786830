-- ===== src/Mft/Stream/Delivery.antt =====
-- What the stream delivers.
use native.Mathlib.Omega.{div_any}
use vaulkeeper.Mft.Boot.{MftBootInfo, read_boot_sector}
use vaulkeeper.Mft.Record.{Read, astray, endless, found, read_record, skipped}
use vaulkeeper.Mft.Record.Inside.{StaysIn, read_record-StaysIn}
use vaulkeeper.Mft.Stream.{
  Streamed, Streaming, VolumeCalls, after_record, batch_records, emit, entry_of, records_per_batch,
  start_position, stream, stream_at, stream_batches, stream_opened, stream_records, stream_size,
  streamed, streamed_endless, streamed_outside,
}
use vaulkeeper.Prelude.{
  List, Option, [], arith, drop, if-cases, if◌then◌else◌, length, length-append, length-drop,
  length-take, ltb, none, refl, some, suc, zero, ℕ, ◌%◌, ◌*◌, ◌+◌, ◌/◌, ◌<◌, ◌^◌, ◌∷◌, ◌≡◌, ◌≤◌,
}
use vaulkeeper.Prelude.Bytes.{AllBytes, AllBytes-drop, AllBytes-take, Bytes}
use vaulkeeper.Util.Error.{Error, Result, err, ok}
use vaulkeeper.Util.Interner.{StringInterner, intern}

-- Without a copy from outside, and with as many emitted as the sink has taken.
abbrev pub Delivers : Streamed → Type 0
Delivers (streamed s) = s.emitted ≡ length s.sunk % 2 ^ 64
Delivers streamed_outside = ⊥
Delivers streamed_endless = Unit

abbrev AllRecords : ℕ → List Bytes → Type 0
AllRecords record_size [] = Unit
AllRecords record_size (r ∷ rs) =
    ((length r ≡ record_size) × AllBytes r) × AllRecords record_size rs

abbrev pub AllReads : List Bytes → Type 0
AllReads [] = Unit
AllReads (bytes ∷ rest) = AllBytes bytes × AllReads rest

batch_records-AllRecords :
    (record_size count : ℕ) (bytes : Bytes)
    → AllBytes bytes
    → record_size * count ≤ length bytes
    → AllRecords record_size (batch_records record_size count bytes)
unfolding batch_records
batch_records-AllRecords record_size zero bytes all h = tt
batch_records-AllRecords record_size (suc count) bytes all h = (
  (omega (arith, length-take record_size bytes), AllBytes-take record_size bytes all),
  batch_records-AllRecords record_size count (drop record_size bytes)
      (AllBytes-drop record_size bytes all) (omega (arith, length-drop record_size bytes)),
)

module _ (utf8 : Bytes → Bytes) (root : Bytes) (record_size sector_size : ℕ)
    (long : 44 ≤ record_size) (room : record_size + 512 ≤ 2 ^ 32) (two : 2 ≤ sector_size)
    (narrow : sector_size < 2 ^ 16) where
  after_record-Delivers :
      (later : Streaming → Streamed) (read : Read) (s : Streaming)
      → StaysIn read
      → s.emitted ≡ length s.sunk % 2 ^ 64
      → ((s' : Streaming) → s'.emitted ≡ length s'.sunk % 2 ^ 64 → Delivers (later s'))
      → Delivers (after_record utf8 root record_size sector_size later read s)
  after_record-Delivers later skipped s inside agree go = go s agree
  after_record-Delivers later (found flags p) s inside agree go = go (emit root flags p s) (
      omega (
        arith,
        agree,
        length-append s.sunk (
            entry_of flags p (intern p.leaf_name s.interner).0
              (intern root (intern p.leaf_name s.interner).1).0
            ∷ []),
      ))
  after_record-Delivers later astray s inside agree go = inside
  after_record-Delivers later endless s inside agree go = tt

  stream_records-Delivers :
      (rs : List Bytes) (later : Streaming → Streamed) (s : Streaming)
      → AllRecords record_size rs
      → s.emitted ≡ length s.sunk % 2 ^ 64
      → ((s' : Streaming) → s'.emitted ≡ length s'.sunk % 2 ^ 64 → Delivers (later s'))
      → Delivers (stream_records utf8 root record_size sector_size rs later s)
  unfolding stream_records
  stream_records-Delivers [] later s all agree go = go s agree
  stream_records-Delivers (r ∷ rs) later s all agree go =
      after_record-Delivers (stream_records utf8 root record_size sector_size rs later)
        (read_record utf8 record_size sector_size r) s
        (read_record-StaysIn utf8 record_size sector_size r all.0.1 all.0.0 long room two narrow)
        agree (λ s' c. stream_records-Delivers rs later s' all.1 c go)

  -- From records of 44 bytes and more, up to 2 ^ 32 - 512, with sectors of 2 to 2 ^ 16 - 1 bytes.
  pub stream_batches-Delivers :
      (reads : List Bytes) (s : Streaming)
      → AllReads reads
      → s.emitted ≡ length s.sunk % 2 ^ 64
      → Delivers (stream_batches utf8 root record_size sector_size reads s)
  unfolding stream_batches
  stream_batches-Delivers [] s all agree = agree
  stream_batches-Delivers (bytes ∷ rest) s all agree =
      let count = length bytes / record_size in
      stream_records-Delivers (batch_records record_size count bytes)
        (λ s'.
          if ltb count records_per_batch
          then streamed s'
          else stream_batches utf8 root record_size sector_size rest s')
        s
        (batch_records-AllRecords record_size count bytes all.0
          (omega (arith, div_any (length bytes) record_size)))
        agree
        (λ s' c.
          if-cases Delivers (ltb count records_per_batch) (λ h. c)
            (λ h. stream_batches-Delivers rest s' all.1 c))

abbrev pub DeliversOrFails : Option (Result Streamed) → Type 0
DeliversOrFails none = ⊥
DeliversOrFails (some (err e)) = Unit
DeliversOrFails (some (ok s)) = Delivers s

-- With records of 44 bytes and more, up to 2 ^ 32 - 512, and sectors of 2 to 2 ^ 16 - 1 bytes, stream
-- either fails with an error or copies nothing from outside of a record, and what it then returns,
-- where no walk over attributes goes on for ever, is how many entries the sink has taken, in 64 bits.
pub stream-DeliversOrFails :
    (utf8 : Bytes → Bytes) (root : Bytes) (calls : VolumeCalls) (st : StringInterner)
    (sector : Bytes) (boot : MftBootInfo)
    → calls.boot_sector ≡ ok sector
    → read_boot_sector sector ≡ some boot
    → 44 ≤ stream_size boot
    → stream_size boot + 512 ≤ 2 ^ 32
    → 2 ≤ boot.bytes_per_sector
    → boot.bytes_per_sector < 2 ^ 16
    → ((n : ℕ) → AllReads (calls.read_file n))
    → DeliversOrFails (stream utf8 root calls st)
unfolding stream
stream-DeliversOrFails utf8 root calls st sector boot e b long room two narrow all =
    rw e (rw b (opened calls.open_volume))
  where
    read : DeliversOrFails (some (stream_at utf8 root calls st boot none))
    read =
        stream_batches-Delivers utf8 root (stream_size boot) (boot.bytes_per_sector % 2 ^ 32) long
          room (omega arith) (omega arith)
          (calls.read_file (stream_size boot * records_per_batch % 2 ^ 32))
          record { interner = st; sunk = []; emitted = 0 }
          (all (stream_size boot * records_per_batch % 2 ^ 32)) refl

    placed : (o : Option Error) → DeliversOrFails (some (stream_at utf8 root calls st boot o))
    placed (some e) = tt
    placed none = read

    opened : (o : Option Error) → DeliversOrFails (some (stream_opened utf8 root calls st boot o))
    opened (some e) = tt
    opened none = placed (calls.set_file_pointer (start_position boot))
