-- ===== src/Fs/Entry.antt =====
-- src/core/fs/file_entry.hpp: what a scan knows of a file. A name is the number of its handle.
use vaulkeeper.Prelude.{Bool, false, true, ℕ}
use vaulkeeper.Prelude.Int.{pos, ℤ}

pub data FileKind : Type 0 where
  regular : FileKind
  directory : FileKind
  symbolic_link : FileKind
  junction : FileKind
  hard_link : FileKind
  offline_file : FileKind
  device : FileKind
  unknown_kind : FileKind

pub record FileAttributes : Type 0 where
  pub read_only : Bool
  pub hidden : Bool
  pub system : Bool
  pub archive : Bool
  pub compressed : Bool
  pub encrypted : Bool
  pub sparse : Bool
  pub reparse : Bool
  pub temporary : Bool
  pub offline : Bool

abbrev pub no_attributes : FileAttributes
no_attributes = record {
  read_only = false;
  hidden = false;
  system = false;
  archive = false;
  compressed = false;
  encrypted = false;
  sparse = false;
  reparse = false;
  temporary = false;
  offline = false;
}

pub record FileEntry : Type 0 where
  pub parent_path : ℕ
  pub name : ℕ
  pub logical_size : ℕ
  pub size_on_disk : ℕ
  pub created_at : ℤ
  pub modified_at : ℤ
  pub accessed_at : ℤ
  pub kind : FileKind
  pub attrs : FileAttributes
  pub hard_link_count : ℕ
  pub record_number : ℕ
  pub parent_record_number : ℕ
  pub usn_version : ℕ

-- `FileEntry {}`.
abbrev pub empty_entry : FileEntry
empty_entry = record {
  parent_path = 0;
  name = 0;
  logical_size = 0;
  size_on_disk = 0;
  created_at = pos 0;
  modified_at = pos 0;
  accessed_at = pos 0;
  kind = unknown_kind;
  attrs = no_attributes;
  hard_link_count = 1;
  record_number = 0;
  parent_record_number = 0;
  usn_version = 0;
}

abbrev pub is_directory_kind : FileKind → Bool
is_directory_kind directory = true
is_directory_kind _ = false
