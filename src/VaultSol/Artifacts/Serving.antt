-- ===== src/VaultSol/Artifacts/Serving.antt =====
-- Reading and deleting artifacts in vaultdrop.py: what a download returns, what happens when the
-- bytes are missing or damaged, and what one tenant can see of another's artifacts.
use qwen_3_8_evals.Prelude.{
  ℕ, String, ◌≡◌, refl, ◌≢◌, ◌⊎◌, inl, inr, Option, none, some, ◌==◌, ◌&&◌, Bool-cases, List, [],
  ◌∷◌, arith, length, find, delete, lookup, eq_iff, Option-cases, All-find,
}
use qwen_3_8_evals.VaultSol.Types.{Artifact, Store}
use qwen_3_8_evals.VaultSol.Action.{Result, api_error}
use qwen_3_8_evals.Effect.{ok, err, fault, ◌>>=◌}
use qwen_3_8_evals.VaultSol.Finalize.{artifact_owned}
use qwen_3_8_evals.VaultSol.Artifacts.{mark_invalid, open_verified_artifact, delete_artifact}
use qwen_3_8_evals.VaultSol.Invariant.{IsValid}

module _ (sha256 : List ℕ → ℕ) where
  -- A download of `a`: its row, and bytes with its digest and size.
  abbrev pub Serves : Artifact → Result (Artifact × List ℕ) → Type 0
  Serves a (ok (b, content)) = (b ≡ a) × (sha256 content ≡ a.sha256) × (length content ≡ a.size)
  Serves a (err _) = ⊥
  Serves a (fault _) = ⊥

  -- In a valid store a tenant's download of an artifact of its own succeeds, gives bytes with the
  -- digest and size of the row, and changes nothing.
  pub open-Serves :
      (tenant : String) (artifact_id : ℕ) (a : Artifact) (s : Store)
      → IsValid sha256 s
      → find (artifact_owned tenant artifact_id) s.artifacts ≡ some a
      → Serves a (open_verified_artifact sha256 tenant artifact_id s).0
        × ((open_verified_artifact sha256 tenant artifact_id s).1 ≡ s)
  unfolding open_verified_artifact ◌>>=◌
  open-Serves tenant artifact_id a s v found =
      let h = All-find _ (artifact_owned tenant artifact_id) s.artifacts a v.served found in
      elim (Option-cases (lookup a.sha256 s.blob_files)) [
        | inl missing ↦ absurd (rw missing at h)
        | inr (c, e) ↦ let held = rw e at h in ground (arith, held.0, held.1)
      ]

  -- A file that has not both the digest and the size of the row.
  abbrev pub Differs : Artifact → Option (List ℕ) → Type 0
  Differs a none = ⊥
  Differs a (some content) = (sha256 content ≢ a.sha256) ⊎ (length content ≢ a.size)

  -- In any store, damaged or not, a download of a tenant's artifact gives bytes with the digest and
  -- size of the row; or the file is missing, and it is a 500 and nothing changes; or the file
  -- has another digest or size, and it is a 500 and the blob's row is marked invalid.
  pub open_verifies :
      (tenant : String) (artifact_id : ℕ) (a : Artifact) (s : Store)
      → find (artifact_owned tenant artifact_id) s.artifacts ≡ some a
      → let (r, t) = open_verified_artifact sha256 tenant artifact_id s in
        (Serves a r × (t ≡ s))
        ⊎ ((lookup a.sha256 s.blob_files ≡ none)
            × (r ≡ err (api_error 500 "artifact bytes unavailable"))
            × (t ≡ s))
        ⊎ (Differs a (lookup a.sha256 s.blob_files)
            × (r ≡ err (api_error 500 "artifact failed integrity verification"))
            × (t ≡ mark_invalid a.sha256 s))
  unfolding open_verified_artifact ◌>>=◌
  open_verifies tenant artifact_id a s found = elim (Option-cases (lookup a.sha256 s.blob_files)) [
    | inl missing ↦ inr (inl (ground arith))
    | inr (content, e) ↦
        elim (Bool-cases (length content == a.size && sha256 content == a.sha256)) [
          | inl good ↦ inl (ground arith)
          | inr bad ↦ inr (inr (ground arith))
        ]
  ]

  -- To a tenant that owns no artifact of that id, the download and the delete are the same 404,
  -- and neither changes anything, whoever else owns one.
  pub foreign_artifact :
      (tenant : String) (artifact_id : ℕ) (s : Store)
      → find (artifact_owned tenant artifact_id) s.artifacts ≡ none
      → (open_verified_artifact sha256 tenant artifact_id s
          ≡ (err (api_error 404 "artifact not found"), s))
        × (delete_artifact tenant artifact_id s ≡ (err (api_error 404 "artifact not found"), s))
  unfolding open_verified_artifact delete_artifact ◌>>=◌
  foreign_artifact tenant artifact_id s e = ground arith

find-delete :
    (tenant other : String) (i j : ℕ) (arts : List Artifact)
    → (i ≢ j) ⊎ (tenant ≢ other)
    → find (artifact_owned other j) (delete (artifact_owned tenant i) arts)
      ≡ find (artifact_owned other j) arts
unfolding find delete
find-delete tenant other i j [] ne = refl
find-delete tenant other i j (a ∷ arts) ne = ground (
  arith,
  find-delete tenant other i j arts ne,
  eq_iff a.tenant_id tenant,
  eq_iff a.tenant_id other,
)

find-delete_self :
    (tenant : String) (i : ℕ) (arts : List Artifact)
    → find (artifact_owned tenant i) (delete (artifact_owned tenant i) arts) ≡ none
unfolding find delete
find-delete_self tenant i [] = refl
find-delete_self tenant i (a ∷ arts) = ground (arith, find-delete_self tenant i arts)

-- A delete that returns normally leaves the tenant no artifact of that id.
pub delete_artifact_removes :
    (tenant : String) (artifact_id : ℕ) (s : Store)
    → (delete_artifact tenant artifact_id s).0 ≡ ok tt
    → find (artifact_owned tenant artifact_id) (delete_artifact tenant artifact_id s).1.artifacts
      ≡ none
unfolding delete_artifact ◌>>=◌
delete_artifact_removes tenant artifact_id s h =
    ground (arith, find-delete_self tenant artifact_id s.artifacts)

-- A delete, however it ends, leaves every artifact of another id or of another tenant as it was
-- found before, and every file under blobs/.
pub delete_artifact_others :
    (tenant other : String) (artifact_id j : ℕ) (s : Store)
    → (artifact_id ≢ j) ⊎ (tenant ≢ other)
    → let t = (delete_artifact tenant artifact_id s).1 in
      (find (artifact_owned other j) t.artifacts ≡ find (artifact_owned other j) s.artifacts)
      × (t.blob_files ≡ s.blob_files)
unfolding delete_artifact ◌>>=◌
delete_artifact_others tenant other artifact_id j s ne =
    (ground (arith, find-delete tenant other artifact_id j s.artifacts ne), ground arith)
