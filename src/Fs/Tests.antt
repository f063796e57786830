-- ===== src/Fs/Tests.antt =====
-- Secure deletion of a file of three bytes with a buffer of two.
use vaulkeeper.Fs.Erase.{
  EraseCalls, SecureDeleteOptions, dod_522022m, erase_finished, fill_pattern, noise_bytes,
  passes_for, run_passes, secure_delete_file, write_chunks,
}
use vaulkeeper.Fs.Erase.Forgets.{secure_delete_file-Forgets}
use vaulkeeper.Prelude.{[], arith, false, length, none, refl, some, true, ◌+◌, ◌∷◌, ◌≡◌}
use vaulkeeper.Prelude.Bytes.{Bytes, codes}

abbrev calls : EraseCalls
calls = record {
  is_regular_file = true;
  file_size = some 3;
  size_message = "no size";
  opens = true;
  accepts = λ pass at. true;
  noise = λ pass n. 7 + n;
  remove_error = none;
}

abbrev options : SecureDeleteOptions
options = record { standard = dod_522022m; remove_after_overwrite = false; buffer_size = 2 }

secure_delete_file-Forgets_example :
    (left : Bytes) × ((length left ≡ 3)
      × ((secure_delete_file calls options (codes "abc")
            ≡ some (erase_finished calls options 3 left))
          × (secure_delete_file calls options (codes "xyz")
              ≡ some (erase_finished calls options 3 left))))
secure_delete_file-Forgets_example =
    secure_delete_file-Forgets calls options (λ pass at. refl) (omega arith) 3 (codes "abc")
      (codes "xyz") refl refl refl refl refl

-- The last of three passes leaves the noise, which begins again with each write.
erased :
    secure_delete_file calls options (codes "abc")
    ≡ some (erase_finished calls options 3 (8 ∷ 7 ∷ 8 ∷ []))
unfolding secure_delete_file run_passes passes_for write_chunks fill_pattern noise_bytes
erased = refl
