-- ===== src/Fs/Erase/Forgets.antt =====
-- Nothing of a file is left in it by secure deletion.
use Prim.Native.Nat.{min}
use mathlib.Core.Path.{subst}
use vaulkeeper.Fs.Erase.{
  EraseCalls, Erased, SecureDeleteOptions, SecureDeleteStandard, dod_522022m, erase_finished,
  fill_pattern, gutmann, noise_bytes, one_pass, overwritten, passes_for, run_passes,
  secure_delete_file, write_chunks, zero_standard,
}
use vaulkeeper.Prelude.{
  Bool, [], arith, drop, if-cases, length, length-append, length-drop, length-replicate,
  length-take, refl, some, suc, sym, take, true, zero, ℕ, ◌++◌, ◌+◌, ◌-◌, ◌<◌, ◌==◌, ◌∙◌, ◌∷◌, ◌≡◌,
  ◌≤◌,
}
use vaulkeeper.Prelude.Bytes.{Bytes}

length-noise_bytes : (next : ℕ → ℕ) (n : ℕ) → length (noise_bytes next n) ≡ n
unfolding noise_bytes
length-noise_bytes next zero = refl
length-noise_bytes next (suc n) = omega (arith, length-noise_bytes next n)

length-fill_pattern :
    (noise : ℕ → ℕ → ℕ) (size pass : ℕ) (s : SecureDeleteStandard)
    → length (fill_pattern noise size pass s) ≡ size
unfolding fill_pattern
length-fill_pattern noise size pass zero_standard = length-replicate size 0
length-fill_pattern noise size pass dod_522022m =
    if-cases (λ (bs : Bytes). length bs ≡ size) (pass == 0) (λ h. length-replicate size 0)
      (λ h.
        if-cases (λ (bs : Bytes). length bs ≡ size) (pass == 1) (λ k. length-replicate size 0xFF)
          (λ k. length-noise_bytes (noise pass) size))
length-fill_pattern noise size pass gutmann = length-noise_bytes (noise pass) size

-- A pass ends with bytes that do not depend on those that were there.
write_chunks-Forgets :
    (accepts : ℕ → Bool) (buffer : Bytes) (fuel : ℕ) (written rest rest' : Bytes) (remaining : ℕ)
    → ((at : ℕ) → accepts at ≡ true)
    → 1 ≤ length buffer
    → length rest ≡ remaining
    → length rest' ≡ remaining
    → remaining < fuel
    → (contents : Bytes) × ((length contents ≡ length written + remaining)
        × ((write_chunks accepts buffer fuel written rest remaining ≡ overwritten contents)
            × (write_chunks accepts buffer fuel written rest' remaining ≡ overwritten contents)))
unfolding write_chunks
write_chunks-Forgets accepts buffer fuel written [] [] zero goes some_bytes e e' enough =
    (written ++ [], (omega (arith, length-append written []), (refl, refl)))
write_chunks-Forgets accepts buffer fuel written (b ∷ rest) rest' zero goes some_bytes e e' enough =
    absurd (omega arith)
write_chunks-Forgets accepts buffer fuel written [] (b ∷ rest') zero goes some_bytes e e' enough =
    absurd (omega arith)
write_chunks-Forgets accepts buffer zero written rest rest' (suc remaining) goes some_bytes e e'
      enough =
    absurd (omega arith)
write_chunks-Forgets accepts buffer (suc fuel) written rest rest' (suc remaining) goes some_bytes e
      e' enough =
    rw (goes (length written)) (
      let chunk = min (suc remaining) (length buffer) in
      let later =
        write_chunks-Forgets accepts buffer fuel (written ++ take chunk buffer) (drop chunk rest)
          (drop chunk rest') (suc remaining - chunk) goes some_bytes
          (omega (arith, length-drop chunk rest)) (omega (arith, length-drop chunk rest'))
          (omega arith) in
      (
        later.0,
        (
          omega (
            arith,
            later.1.0,
            length-append written (take chunk buffer),
            length-take chunk buffer,
          ),
          later.1.1,
        ),
      ))

module _ (calls : EraseCalls) (options : SecureDeleteOptions)
    (goes : (pass at : ℕ) → calls.accepts pass at ≡ true)
    (some_bytes : 1 ≤ options.buffer_size) where
  one_pass-Forgets :
      (size pass : ℕ) (contents contents' : Bytes)
      → length contents ≡ size
      → length contents' ≡ size
      → (left : Bytes) × ((length left ≡ size)
          × ((one_pass calls options size pass contents ≡ overwritten left)
              × (one_pass calls options size pass contents' ≡ overwritten left)))
  one_pass-Forgets size pass contents contents' e e' =
      let done =
        write_chunks-Forgets (calls.accepts pass)
          (fill_pattern calls.noise options.buffer_size pass options.standard) (suc size) []
          contents contents' size (goes pass)
          (omega (
            arith,
            some_bytes,
            length-fill_pattern calls.noise options.buffer_size pass options.standard,
          ))
          e e' (omega arith) in
      (done.0, (omega (arith, done.1.0), done.1.1))

  -- The passes end with bytes of the same number.
  run_passes_end :
      (size left pass : ℕ) (finalize : Bytes → Erased) (contents : Bytes)
      → length contents ≡ size
      → (x : Bytes) × ((length x ≡ size)
          × (run_passes calls options size left pass finalize contents ≡ some (finalize x)))
  unfolding run_passes
  run_passes_end size zero pass finalize contents e = (contents, (e, refl))
  run_passes_end size (suc left) pass finalize contents e =
      let one = one_pass-Forgets size pass contents contents e e in
      let later = run_passes_end size left (suc pass) finalize one.0 one.1.0 in
      (later.0, (later.1.0, rw one.1.1.0 later.1.1))

  run_passes-Forgets :
      (size left pass : ℕ) (finalize : Bytes → Erased) (contents contents' : Bytes)
      → length contents ≡ size
      → length contents' ≡ size
      → run_passes calls options size (suc left) pass finalize contents
        ≡ run_passes calls options size (suc left) pass finalize contents'
  unfolding run_passes
  run_passes-Forgets size left pass finalize contents contents' e e' =
      let one = one_pass-Forgets size pass contents contents' e e' in
      rw one.1.1.0 (rw one.1.1.1 refl)

  some_passes : (s : SecureDeleteStandard) → (n : ℕ) × (passes_for s ≡ suc n)
  unfolding passes_for
  some_passes zero_standard = (0, refl)
  some_passes dod_522022m = (2, refl)
  some_passes gutmann = (34, refl)

  -- Where all writes of the passes succeed and the buffer has a byte at least, secure deletion of a
  -- file comes to its end, and two files of the same size leave the same bytes behind, with that size.
  pub secure_delete_file-Forgets :
      (size : ℕ) (contents contents' : Bytes)
      → calls.is_regular_file ≡ true
      → calls.file_size ≡ some size
      → calls.opens ≡ true
      → length contents ≡ size
      → length contents' ≡ size
      → (left : Bytes) × ((length left ≡ size)
          × ((secure_delete_file calls options contents
                ≡ some (erase_finished calls options size left))
              × (secure_delete_file calls options contents'
                  ≡ some (erase_finished calls options size left))))
  unfolding secure_delete_file
  secure_delete_file-Forgets size contents contents' r s o e e' = rw r (
      rw s (
        rw o (
          let n = some_passes options.standard in
          let ended =
            run_passes_end size (passes_for options.standard) 0 (erase_finished calls options size)
              contents e in
          let same =
            subst
              (λ k.
                run_passes calls options size k 0 (erase_finished calls options size) contents
                ≡ run_passes calls options size k 0 (erase_finished calls options size) contents')
              (sym n.1)
              (run_passes-Forgets size n.0 0 (erase_finished calls options size) contents contents'
                e e') in
          (ended.0, (ended.1.0, (ended.1.1, sym same ∙ ended.1.1))))))
