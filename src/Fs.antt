-- ===== src/Fs.antt =====
-- `std::filesystem` and `std::fstream`, as far as src/core calls them: a parameter of the parts that
-- keep files. A path is its `generic_string()`; the disk is whatever the calls change.
pub mod Entry
pub mod Erase
mod Tests
use Prim.Native.String.{String}
use vaulkeeper.Prelude.{Bool, List, Option, ℕ}
use vaulkeeper.Prelude.Bytes.{Bytes}

pub record FileSystem (Disk : Type 0) : Type 0 where
  pub exists : Bytes → Disk → Bool
  pub absolute : Bytes → Disk → Bytes
  pub is_directory : Bytes → Disk → Bool
  -- What a recursive iterator comes by until it reports an error: whether an entry is a regular
  -- file, and its size, which is 2^64 - 1 where it cannot be told.
  pub tree : Bytes → Disk → List (Bool × ℕ)
  pub file_size : Bytes → Disk → ℕ
  -- The changes, with the message of the error code that they set.
  pub create_directories : Bytes → Disk → Option String × Disk
  pub rename : Bytes → Bytes → Disk → Option String × Disk
  pub remove_all : Bytes → Disk → Disk
  -- `std::ofstream os(path, std::ios::trunc)` and what is put into it: none if it does not open.
  pub write_file : Bytes → Bytes → Disk → Option Disk
  -- The contents of `std::ifstream is(path)`: none if it does not open.
  pub read_file : Bytes → Disk → Option Bytes
  -- `operator/`, `filename` and `parent_path`.
  pub join : Bytes → Bytes → Bytes
  pub filename : Bytes → Bytes
  pub parent_path : Bytes → Bytes
