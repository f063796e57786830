-- ===== src/Fs/Erase.antt =====
-- `secureDeleteFile` of src/core/fs/secure_delete.cpp on the bytes of one file.
pub mod Forgets
use Prim.Native.Nat.{min}
use Prim.Native.String.{String}
use vaulkeeper.Prelude.{
  Bool, Option, [], drop, false, if◌then◌else◌, length, none, replicate, some, suc, take, true,
  zero, ℕ, ◌++◌, ◌-◌, ◌==◌, ◌∷◌,
}
use vaulkeeper.Prelude.Bytes.{Bytes}
use vaulkeeper.Util.Error.{Result, fail, invalid_argument, io_error, ok, permission_denied}

pub data SecureDeleteStandard : Type 0 where
  zero_standard : SecureDeleteStandard
  dod_522022m : SecureDeleteStandard
  gutmann : SecureDeleteStandard

pub record SecureDeleteOptions : Type 0 where
  pub standard : SecureDeleteStandard
  pub remove_after_overwrite : Bool
  pub buffer_size : ℕ

unfoldable pub passes_for : SecureDeleteStandard → ℕ
passes_for zero_standard = 1
passes_for dod_522022m = 3
passes_for gutmann = 35

-- What the generator gives for the bytes of a buffer.
unfoldable pub noise_bytes : (ℕ → ℕ) → ℕ → Bytes
noise_bytes next zero = []
noise_bytes next (suc n) = next n ∷ noise_bytes next n

-- The buffer in a pass.
unfoldable pub fill_pattern : (ℕ → ℕ → ℕ) → ℕ → ℕ → SecureDeleteStandard → Bytes
unfolding noise_bytes
fill_pattern noise size pass zero_standard = replicate size 0
fill_pattern noise size pass dod_522022m =
    if pass == 0
    then replicate size 0
    else if pass == 1
    then replicate size 0xFF
    else noise_bytes (noise pass) size
fill_pattern noise size pass gutmann = noise_bytes (noise pass) size

-- How the writes of a pass end: the bytes of the file after them, or after the one that failed; or not
-- in the rounds that they were given.
pub data Pass : Type 0 where
  overwritten : Bytes → Pass
  write_failed : Bytes → Pass
  unended : Pass

-- The inner loop, with at most `fuel` rounds: the bytes in front of the position and those behind it.
-- `accepts` tells whether the write at a position succeeds.
unfoldable pub write_chunks : (ℕ → Bool) → Bytes → ℕ → Bytes → Bytes → ℕ → Pass
write_chunks accepts buffer fuel written rest zero = overwritten (written ++ rest)
write_chunks accepts buffer zero written rest (suc remaining) = unended
write_chunks accepts buffer (suc fuel) written rest (suc remaining) =
    let chunk = min (suc remaining) (length buffer) in
    let later =
      write_chunks accepts buffer fuel (written ++ take chunk buffer) (drop chunk rest)
        (suc remaining - chunk) in
    if accepts (length written) then later else write_failed (written ++ rest)

-- The calls: what the file system answers, whether a write of a pass at a position succeeds, and what
-- the generator gives in a pass.
pub record EraseCalls : Type 0 where
  pub is_regular_file : Bool
  pub file_size : Option ℕ
  pub size_message : String
  pub opens : Bool
  pub accepts : ℕ → ℕ → Bool
  pub noise : ℕ → ℕ → ℕ
  pub remove_error : Option String

-- The result, the bytes that were left in the file, and whether it was removed; none where a pass does
-- not end.
pub record Erased : Type 0 where
  pub result : Result ℕ
  pub contents : Bytes
  pub removed : Bool

module _ (calls : EraseCalls) (options : SecureDeleteOptions) where
  abbrev pub after_pass : (Bytes → Option Erased) → Pass → Option Erased
  after_pass later (overwritten contents) = later contents
  after_pass later (write_failed contents) = some record {
    result = fail io_error "secure delete write failed";
    contents = contents;
    removed = false;
  }
  after_pass later unended = none

  abbrev pub one_pass : ℕ → ℕ → Bytes → Pass
  one_pass size pass contents =
      write_chunks (calls.accepts pass)
        (fill_pattern calls.noise options.buffer_size pass options.standard) (suc size) [] contents
        size

  -- The loop over the passes, from pass `pass` on with `left` to go.
  unfoldable pub run_passes : ℕ → ℕ → ℕ → (Bytes → Erased) → Bytes → Option Erased
  unfolding write_chunks fill_pattern
  run_passes size zero pass finalize contents = some (finalize contents)
  run_passes size (suc left) pass finalize contents =
      after_pass (run_passes size left (suc pass) finalize) (one_pass size pass contents)

  abbrev pub removed_with : ℕ → Option String → Bytes → Erased
  removed_with size none contents = record { result = ok size; contents = contents; removed = true }
  removed_with size (some message) contents = record {
    result = fail io_error message;
    contents = contents;
    removed = false;
  }

  abbrev pub erase_finished : ℕ → Bytes → Erased
  erase_finished size contents =
      if options.remove_after_overwrite
      then removed_with size calls.remove_error contents
      else record { result = ok size; contents = contents; removed = false }

  abbrev pub erase_sized : Bytes → Option ℕ → Option Erased
  erase_sized contents none =
      some
        record { result = fail io_error calls.size_message; contents = contents; removed = false }
  erase_sized contents (some size) =
      if calls.opens
      then run_passes size (passes_for options.standard) 0 (erase_finished size) contents
      else some record {
        result = fail permission_denied "secure delete cannot open file";
        contents = contents;
        removed = false;
      }

  unfoldable pub secure_delete_file : Bytes → Option Erased
  unfolding run_passes passes_for
  secure_delete_file contents =
      if calls.is_regular_file
      then erase_sized contents calls.file_size
      else some record {
        result = fail invalid_argument "secure delete target must be a regular file";
        contents = contents;
        removed = false;
      }
