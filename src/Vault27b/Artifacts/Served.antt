-- ===== src/Vault27b/Artifacts/Served.antt =====
-- What a download of vaultdrop/qwen-3-8-27b-v2 serves, and what `validate_pass` does to a lost file.
use qwen_3_8_evals.Prelude.{
  ℕ, ◌≡◌, inl, inr, String, some, List, [], ◌∷◌, eq_iff, length, arith, find, lookup, Option-cases,
}
use qwen_3_8_evals.Effect.{ok}
use qwen_3_8_evals.Vault27b.Types.{Artifact, Store}
use qwen_3_8_evals.Vault27b.Transactions.{artifact_owned}
use qwen_3_8_evals.Vault27b.System.{System, Run, initial, CurrentRun}
use qwen_3_8_evals.Vault27b.Bytes.Runs.{run-Valid}
use qwen_3_8_evals.Vault27b.Artifacts.{download, download_row}

-- A download that is not refused found the artifact under the caller's own tenant.
download_row-ok :
    (a : Artifact) (s : Store) (content : List ℕ)
    → download_row a s ≡ ok content
    → (lookup a.sha256 s.blob_files ≡ some content) × (length content ≡ a.size)
download_row-ok a s content e = ground (arith, e)

owned-own :
    (tenant : String) (artifact_id : ℕ) (rows : List Artifact) (a : Artifact)
    → find (artifact_owned tenant artifact_id) rows ≡ some a
    → (a.artifact_id ≡ artifact_id) × (a.tenant_id ≡ tenant)
unfolding find
owned-own tenant artifact_id [] a e = cc
owned-own tenant artifact_id (b ∷ rows) a e =
    ground (arith, e, eq_iff b.tenant_id tenant, owned-own tenant artifact_id rows a)

module _ (sha256 : List ℕ → ℕ) where
  -- After a run as for `run-keeps`, a download that is answered with bytes is one of an artifact of that id
  -- whose tenant is the caller's, and the bytes have the size and the digest of that artifact.
  pub download-serves :
      (t : System) (r : Run sha256 initial t)
      → CurrentRun r
      → (tenant : String) (artifact_id : ℕ) (content : List ℕ)
      → download tenant artifact_id t.store ≡ ok content
      → (a : Artifact) × (find (artifact_owned tenant artifact_id) t.store.artifacts ≡ some a)
        × (a.artifact_id ≡ artifact_id)
        × (a.tenant_id ≡ tenant)
        × (sha256 content ≡ a.sha256)
        × (length content ≡ a.size)
  unfolding download
  download-serves t r c tenant artifact_id content e =
      elim (Option-cases (find (artifact_owned tenant artifact_id) t.store.artifacts)) [
        | inl k ↦ ground (arith, e, k)
        | inr (a, k) ↦
            let (file, size) = download_row-ok a t.store content (ground (arith, e, k)) in
            let (same_id, same_tenant) = owned-own tenant artifact_id t.store.artifacts a k in
            (
              a,
              k,
              same_id,
              same_tenant,
              (run-Valid sha256 t r c).addressed a.sha256 content file,
              size,
            )
      ]
