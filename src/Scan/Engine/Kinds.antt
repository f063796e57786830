-- ===== src/Scan/Engine/Kinds.antt =====
-- What an entry adds to each of the counts, by its kind.
use mathlib.Core.Path.{subst}
use vaulkeeper.Fs.Entry.{
  FileKind, device, directory, hard_link, is_directory_kind, junction, offline_file, regular,
  symbolic_link, unknown_kind,
}
use vaulkeeper.Prelude.{arith, if◌then◌else◌, inl, inr, refl, ℕ, ◌%◌, ◌+◌, ◌^◌, ◌≡◌, ◌⊎◌}
use vaulkeeper.Scan.Engine.{ScanStatistics, ScanVolumeSummary, count_kind, count_volume}

-- Only a regular file has a size.
abbrev pub IsSized : FileKind → ℕ → Type 0
IsSized k size = (k ≡ regular) ⊎ (size ≡ 0)

-- The size that counts.
abbrev pub counted : FileKind → ℕ → ℕ
counted k size = if is_directory_kind k then 0 else size

abbrev Irregular : FileKind → Type 0
Irregular regular = ⊥
Irregular _ = Unit

not_regular : (k : FileKind) → Irregular k → k ≡ regular → ⊥
not_regular k h e = subst Irregular e h

pub bytes_indexed-count_kind :
    (k : FileKind) (size : ℕ) (st : ScanStatistics)
    → IsSized k size
    → (count_kind k size st).bytes_indexed % 2 ^ 64 ≡ (st.bytes_indexed + counted k size) % 2 ^ 64
bytes_indexed-count_kind regular size st s = omega arith
bytes_indexed-count_kind directory size st s = omega arith
bytes_indexed-count_kind symbolic_link size st (inl e) = absurd (not_regular symbolic_link tt e)
bytes_indexed-count_kind symbolic_link size st (inr e) = omega (arith, e)
bytes_indexed-count_kind junction size st (inl e) = absurd (not_regular junction tt e)
bytes_indexed-count_kind junction size st (inr e) = omega (arith, e)
bytes_indexed-count_kind hard_link size st (inl e) = absurd (not_regular hard_link tt e)
bytes_indexed-count_kind hard_link size st (inr e) = omega (arith, e)
bytes_indexed-count_kind offline_file size st (inl e) = absurd (not_regular offline_file tt e)
bytes_indexed-count_kind offline_file size st (inr e) = omega (arith, e)
bytes_indexed-count_kind device size st (inl e) = absurd (not_regular device tt e)
bytes_indexed-count_kind device size st (inr e) = omega (arith, e)
bytes_indexed-count_kind unknown_kind size st (inl e) = absurd (not_regular unknown_kind tt e)
bytes_indexed-count_kind unknown_kind size st (inr e) = omega (arith, e)

pub scanned_bytes-count_volume :
    (k : FileKind) (size : ℕ) (vol : ScanVolumeSummary)
    → IsSized k size
    → (count_volume k size vol).scanned_bytes % 2 ^ 64
      ≡ (vol.scanned_bytes + counted k size) % 2 ^ 64
scanned_bytes-count_volume regular size st s = omega arith
scanned_bytes-count_volume directory size st s = omega arith
scanned_bytes-count_volume symbolic_link size st (inl e) = absurd (not_regular symbolic_link tt e)
scanned_bytes-count_volume symbolic_link size st (inr e) = omega (arith, e)
scanned_bytes-count_volume junction size st (inl e) = absurd (not_regular junction tt e)
scanned_bytes-count_volume junction size st (inr e) = omega (arith, e)
scanned_bytes-count_volume hard_link size st (inl e) = absurd (not_regular hard_link tt e)
scanned_bytes-count_volume hard_link size st (inr e) = omega (arith, e)
scanned_bytes-count_volume offline_file size st (inl e) = absurd (not_regular offline_file tt e)
scanned_bytes-count_volume offline_file size st (inr e) = omega (arith, e)
scanned_bytes-count_volume device size st (inl e) = absurd (not_regular device tt e)
scanned_bytes-count_volume device size st (inr e) = omega (arith, e)
scanned_bytes-count_volume unknown_kind size st (inl e) = absurd (not_regular unknown_kind tt e)
scanned_bytes-count_volume unknown_kind size st (inr e) = omega (arith, e)

pub directories_visited-count_kind :
    (k : FileKind) (size : ℕ) (st : ScanStatistics)
    → ((count_kind k size st).directories_visited + counted k 1) % 2 ^ 64
      ≡ (st.directories_visited + 1) % 2 ^ 64
directories_visited-count_kind regular size st = omega arith
directories_visited-count_kind directory size st = omega arith
directories_visited-count_kind symbolic_link size st = omega arith
directories_visited-count_kind junction size st = omega arith
directories_visited-count_kind hard_link size st = omega arith
directories_visited-count_kind offline_file size st = omega arith
directories_visited-count_kind device size st = omega arith
directories_visited-count_kind unknown_kind size st = omega arith

pub files_visited-count_kind :
    (k : FileKind) (size : ℕ) (st : ScanStatistics)
    → (count_kind k size st).files_visited ≡ st.files_visited
files_visited-count_kind regular size st = refl
files_visited-count_kind directory size st = refl
files_visited-count_kind symbolic_link size st = refl
files_visited-count_kind junction size st = refl
files_visited-count_kind hard_link size st = refl
files_visited-count_kind offline_file size st = refl
files_visited-count_kind device size st = refl
files_visited-count_kind unknown_kind size st = refl
