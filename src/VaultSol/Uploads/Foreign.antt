-- ===== src/VaultSol/Uploads/Foreign.antt =====
-- Uploads of other tenants, in vaultdrop.py.
use qwen_3_8_evals.Prelude.{ℕ, String, Bool, ◌≡◌, none, List, arith, find}
use qwen_3_8_evals.Prelude.Int.{ℤ}
use qwen_3_8_evals.VaultSol.Types.{Store}
use qwen_3_8_evals.VaultSol.Action.{api_error, closing_error}
use qwen_3_8_evals.Effect.{err, ◌>>=◌}
use qwen_3_8_evals.VaultSol.Uploads.{owned, upload_status, check_chunk, put_chunk}
use qwen_3_8_evals.VaultSol.Finalize.{freeze_upload, finalize}

-- To a tenant that owns no upload of that id, its status, a chunk for it and its finalize are each
-- a 404, and none changes anything, whoever else owns one and whatever the request holds.
pub foreign_upload :
    (sha256 : List ℕ → ℕ) (ready : Bool) (tenant : String) (upload_id : ℕ) (index : ℤ)
    (digest size tag new_id now : ℕ) (source : List ℕ) (s : Store)
    → find (owned tenant upload_id) s.uploads ≡ none
    → (upload_status tenant upload_id s ≡ (err (api_error 404 "upload not found"), s))
      × (put_chunk sha256 tenant upload_id index digest source size tag s
          ≡ (err (closing_error 404 "upload not found"), s))
      × (finalize sha256 ready tenant upload_id digest size new_id tag now s
          ≡ (err (api_error 404 "upload not found"), s))
unfolding upload_status put_chunk check_chunk finalize freeze_upload ◌>>=◌
foreign_upload sha256 ready tenant upload_id index digest size tag new_id now source s e =
    (ground arith, ground arith, ground arith)
