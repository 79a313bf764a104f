-- ===== src/VaultQwen/Valid/Starts.antt =====
-- What the first part of `finalize` in vaultdrop/qwen-v3 changes.
use qwen_3_8_evals.Prelude.{ℕ, String, ◌≡◌, refl, Option, none, some, List}
use qwen_3_8_evals.Prelude.Int.{ℤ}
use qwen_3_8_evals.Effect.{Outcome, ok, err, fault}
use qwen_3_8_evals.VaultQwen.Types.{UploadState, opened, finalizing, finalized, Upload, Store}
use qwen_3_8_evals.VaultQwen.Claims.{
  Answer, Claim, Declared, claim, set_finalizing, finalize_open, finalize_row, finalize_found,
  start_finalize,
}

-- The uploads at most differ.
abbrev pub UploadsOnly : Store → Store → Type 0
UploadsOnly s t = (us : List Upload) × (t ≡ record s { uploads = us })

claim-UploadsOnly : (c : Claim) (s : Store) → UploadsOnly s (claim c s).1
unfolding claim set_finalizing
claim-UploadsOnly c s = (_, refl)

finalize_open-UploadsOnly :
    (d : Outcome Answer (Option (List ℕ))) (z : Outcome Answer (Unit {0})) (row : Upload)
    (i now : ℕ) (s : Store)
    → UploadsOnly s (finalize_open d z row i now s).1
unfolding finalize_open
finalize_open-UploadsOnly (ok d) (ok _) row i now s =
    claim-UploadsOnly (record { row = row; declared = d; artifact_id = i; now = now }) s
finalize_open-UploadsOnly (ok d) (err a) row i now s = (s.uploads, refl)
finalize_open-UploadsOnly (ok d) (fault m) row i now s = (s.uploads, refl)
finalize_open-UploadsOnly (err a) z row i now s = (s.uploads, refl)
finalize_open-UploadsOnly (fault m) z row i now s = (s.uploads, refl)

finalize_row-UploadsOnly :
    (state : UploadState) (row : Upload) (d : Declared) (z : Option ℤ) (i now : ℕ) (s : Store)
    → UploadsOnly s (finalize_row state row d z i now s).1
unfolding finalize_row
finalize_row-UploadsOnly finalized row d z i now s = (s.uploads, refl)
finalize_row-UploadsOnly opened row d z i now s = finalize_open-UploadsOnly _ _ row i now s
finalize_row-UploadsOnly finalizing row d z i now s = finalize_open-UploadsOnly _ _ row i now s

found-UploadsOnly :
    (found : Option Upload) (d : Declared) (z : Option ℤ) (i now : ℕ) (s : Store)
    → UploadsOnly s (finalize_found found d z i now s).1
unfolding finalize_found
found-UploadsOnly none d z i now s = (s.uploads, refl)
found-UploadsOnly (some row) d z i now s = finalize_row-UploadsOnly row.state row d z i now s

pub start_finalize-UploadsOnly :
    (tenant : String) (upload_id : ℕ) (d : Declared) (z : Option ℤ) (i now : ℕ) (s : Store)
    → UploadsOnly s (start_finalize tenant upload_id d z i now s).1
unfolding start_finalize
start_finalize-UploadsOnly tenant upload_id d z i now s = found-UploadsOnly _ d z i now s
