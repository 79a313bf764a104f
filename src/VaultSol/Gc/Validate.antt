-- ===== src/VaultSol/Gc/Validate.antt =====
-- `validate` of vaultdrop.py and the blob rows that it marks.
use qwen_3_8_evals.Prelude.{
  ℕ, ◌-◌, ◌≡◌, refl, Bool, true, false, ◌&&◌, ◌||◌, ◌==◌, Option, none, some, Option-cases, inl,
  inr, List, [], ◌∷◌, map, arith, length, length-map, select, update, any, count, lookup,
}
use qwen_3_8_evals.VaultSol.Types.{Blob, Store}
use qwen_3_8_evals.Effect.{ok, ◌>>=◌}
use qwen_3_8_evals.VaultSol.Finalize.{blob_at}
use qwen_3_8_evals.VaultSol.Gc.{Checked, check_blob, set_validated, set_all_validated, validate}
use qwen_3_8_evals.VaultSol.Invariant.{DistinctHashes}

set_validated-absent :
    (r : Checked) (bs : List Blob) → any (blob_at r.digest) bs ≡ false → set_validated r bs ≡ bs
unfolding any update
set_validated-absent r [] e = refl
set_validated-absent r (b ∷ bs) e = ground (arith, set_validated-absent r bs)

abbrev pub is_there : Option (List ℕ) → Bool
is_there none = false
is_there (some _) = true

module _ (sha256 : List ℕ → ℕ) (replaced : ℕ → Bool) (s : Store) where
  -- Whether a file is there with a row's digest and size.
  abbrev pub fits : Option (List ℕ) → Blob → Bool
  fits none b = false
  fits (some content) b = length content == b.size && sha256 content == b.content_hash

  -- Whether the file of the row is there and fits, or was replaced meanwhile.
  abbrev pub good_of : Blob → Bool
  good_of b =
      let file = lookup b.content_hash s.blob_files in
      fits file b || (is_there file && replaced b.content_hash)

  check_file-good : (b : Blob) → (check_blob sha256 replaced s b).good ≡ good_of b
  check_file-good b = elim (Option-cases (lookup b.content_hash s.blob_files)) [
    | inl e ↦ ground (arith, e)
    | inr (content, e) ↦ ground (arith, e)
  ]

  abbrev pub marked : Blob → Blob
  marked b = record b { validated = good_of b }

  abbrev results : List Blob → List Checked
  results = map (check_blob sha256 replaced s)

  set_all_validated-head :
      (x : Blob) (bs rows : List Blob)
      → any (blob_at x.content_hash) bs ≡ false
      → set_all_validated (results bs) (x ∷ rows) ≡ x ∷ set_all_validated (results bs) rows
  unfolding set_all_validated any update
  set_all_validated-head x [] rows e = refl
  set_all_validated-head x (b ∷ bs) rows e =
      ground
        (arith, set_all_validated-head x bs (set_validated (check_blob sha256 replaced s b) rows))

  set_all_validated-results :
      (bs : List Blob) → DistinctHashes bs → set_all_validated (results bs) bs ≡ map marked bs
  unfolding set_all_validated update
  set_all_validated-results [] h = refl
  set_all_validated-results (b ∷ bs) h = ground (
    arith,
    set_validated-absent (check_blob sha256 replaced s b) bs,
    check_file-good b,
    set_all_validated-head (marked b) bs bs,
    set_all_validated-results bs h.1,
  )

  length-good : (bs : List Blob) → length (select (λ r. r.good) (results bs)) ≡ count good_of bs
  unfolding select count
  length-good [] = refl
  length-good (b ∷ bs) = ground (arith, check_file-good b, length-good bs)

  -- Where no two rows share a digest, a validation that is let run marks each row valid exactly if
  -- its file is there with the row's digest and size, or was replaced meanwhile, and changes
  -- nothing else; it reports every row as scanned and splits them into valid and invalid.
  pub validate_exact :
      DistinctHashes s.blobs
      → let n = length s.blobs in
        let valid = count good_of s.blobs in
        validate sha256 replaced false s ≡ (
          ok (record { scanned = n; valid = valid; invalid = n - valid }),
          record s { blobs = map marked s.blobs },
        )
  unfolding validate ◌>>=◌
  validate_exact h = rw (
    set_all_validated-results s.blobs h,
    length-good s.blobs,
    length-map (check_blob sha256 replaced s) s.blobs,
  )
