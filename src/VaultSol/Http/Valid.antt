-- ===== src/VaultSol/Http/Valid.antt =====
-- The requests of vaultdrop.py and the validity of the store.
use qwen_3_8_evals.Prelude.{
  ℕ, String, ◌≡◌, refl, true, false, Bool, List, [], ◌∷◌, map, length, arith, update, any,
}
use qwen_3_8_evals.Prelude.Int.{ℤ}
use qwen_3_8_evals.VaultSol.Types.{Blob, Artifact, Store}
use qwen_3_8_evals.VaultSol.Action.{Action}
use qwen_3_8_evals.Effect.{◌>>=◌, finally}
use qwen_3_8_evals.Effect.Keeps.{Keeps, keeps_rules}
use qwen_3_8_evals.VaultSol.Uploads.{create_upload, upload_status, put_chunk}
use qwen_3_8_evals.VaultSol.Finalize.{blob_at, finalize}
use qwen_3_8_evals.VaultSol.Artifacts.{
  artifact_row, flag_if, open_verified_artifact, delete_artifact,
}
use qwen_3_8_evals.VaultSol.Gc.{gc, validate, check_blob, Checked, set_validated, set_all_validated}
use qwen_3_8_evals.VaultSol.Invariant.{RefsExact, Backed, DistinctHashes, IsValid}
use qwen_3_8_evals.VaultSol.Invariant.Methods.{
  Untouched, Untouched-IsValid, finalize-IsValid, delete_artifact-IsValid, gc-IsValid,
}
use qwen_3_8_evals.VaultSol.Auth.{Auth}
use qwen_3_8_evals.VaultSol.Http.{Request}
use qwen_3_8_evals.VaultSol.Http.Dispatch.{
  Env, Route, upload, chunk, finish, one_artifact, no_route, post_uploads, put_chunks,
  post_finalize, on_upload, on_artifact, get_artifacts, as_admin, admin_gc, admin_blobs,
  admin_validate, plain_route, on_route, dispatch, handle,
}

-- A change of the `validated` flags alone.
abbrev flags : (Blob → Bool) → (Blob → Bool) → List Blob → List Blob
flags p good bs = update p (λ b. record b { validated = good b }) bs

any-flags :
    (h : ℕ) (p good : Blob → Bool) (bs : List Blob)
    → any (blob_at h) (flags p good bs) ≡ any (blob_at h) bs
unfolding any update
any-flags h p good [] = refl
any-flags h p good (b ∷ bs) = ground (arith, any-flags h p good bs)

refs-flags :
    (p good : Blob → Bool) (arts : List Artifact) (bs : List Blob)
    → RefsExact arts bs
    → RefsExact arts (flags p good bs)
unfolding update
refs-flags p good arts [] h = tt
refs-flags p good arts (b ∷ bs) h = ground (arith, refs-flags p good arts bs h.1)

Backed-flags :
    (p good : Blob → Bool) (bs : List Blob) (arts : List Artifact)
    → Backed bs arts
    → Backed (flags p good bs) arts
Backed-flags p good bs [] h = tt
Backed-flags p good bs (a ∷ arts) h = (rw any-flags h.0, Backed-flags p good bs arts h.1)

hashes-flags :
    (p good : Blob → Bool) (bs : List Blob) → DistinctHashes bs → DistinctHashes (flags p good bs)
unfolding update
hashes-flags p good [] h = tt
hashes-flags p good (b ∷ bs) h =
    ground (arith, hashes-flags p good bs h.1, any-flags b.content_hash p good bs)

module _ (sha256 : List ℕ → ℕ) where
  flags-IsValid :
      (p good : Blob → Bool) (s : Store)
      → IsValid sha256 s
      → IsValid sha256 (record s { blobs = flags p good s.blobs })
  flags-IsValid p good s v = record {
    refs = refs-flags p good s.artifacts s.blobs v.refs;
    backed = Backed-flags p good s.blobs s.artifacts v.backed;
    served = v.served;
    distinct_ids = v.distinct_ids;
    distinct_hashes = hashes-flags p good s.blobs v.distinct_hashes;
  }

  set_all_validated-IsValid :
      (rs : List Checked) (s : Store)
      → IsValid sha256 s
      → IsValid sha256 (record s { blobs = set_all_validated rs s.blobs })
  unfolding set_all_validated
  set_all_validated-IsValid [] s v = v
  set_all_validated-IsValid (r ∷ rs) s v =
      set_all_validated-IsValid rs (record s { blobs = set_validated r s.blobs })
        (flags-IsValid _ (λ _. r.good) s v)

  Keeps-create_upload :
      (tenant name : String) (total size upload_id now : ℕ)
      → Keeps (IsValid sha256) (create_upload tenant name total size upload_id now)
  unfolding create_upload ◌>>=◌
  Keeps-create_upload tenant name total size upload_id now = record {
    after = λ s v. Untouched-IsValid sha256 s _ (ground arith) v;
  }

  Keeps-upload_status : (tenant : String) (i : ℕ) → Keeps (IsValid sha256) (upload_status tenant i)
  unfolding upload_status
  Keeps-upload_status tenant i = search keeps_rules

  put_chunk-Untouched :
      (tenant : String) (i : ℕ) (index : ℤ) (expected : ℕ) (source : List ℕ) (size tag : ℕ)
      (s : Store)
      → Untouched s (put_chunk sha256 tenant i index expected source size tag s).1
  unfolding put_chunk ◌>>=◌ finally
  put_chunk-Untouched tenant i index expected source size tag s = ground arith

  Keeps-put_chunk :
      (tenant : String) (i : ℕ) (index : ℤ) (expected : ℕ) (source : List ℕ) (size tag : ℕ)
      → Keeps (IsValid sha256) (put_chunk sha256 tenant i index expected source size tag)
  Keeps-put_chunk tenant i index expected source size tag = record {
    after = λ s v.
        Untouched-IsValid sha256 s _ (put_chunk-Untouched tenant i index expected source size tag s)
          v;
  }

  Keeps-flag_if : (bad : Bool) (digest : ℕ) → Keeps (IsValid sha256) (flag_if bad digest)
  unfolding flag_if
  Keeps-flag_if true digest = record {
    after = λ s v. flags-IsValid (blob_at digest) (λ _. false) s v;
  }
  Keeps-flag_if false digest = record { after = λ s v. v }

  Keeps-artifact_row : (tenant : String) (i : ℕ) → Keeps (IsValid sha256) (artifact_row tenant i)
  unfolding artifact_row
  Keeps-artifact_row tenant i = search keeps_rules

  Keeps-open :
      (tenant : String) (i : ℕ) → Keeps (IsValid sha256) (open_verified_artifact sha256 tenant i)
  unfolding open_verified_artifact
  Keeps-open tenant i = search (keeps_rules, Keeps-flag_if) depth 12

  Keeps-delete : (tenant : String) (i : ℕ) → Keeps (IsValid sha256) (delete_artifact tenant i)
  Keeps-delete tenant i = record { after = λ s v. delete_artifact-IsValid sha256 tenant i s v }

  Keeps-gc : (tag : ℕ → ℕ) → Keeps (IsValid sha256) (gc tag)
  Keeps-gc tag = record { after = λ s v. gc-IsValid sha256 tag s v }

  Keeps-validate :
      (replaced : ℕ → Bool) (locked : Bool)
      → Keeps (IsValid sha256) (validate sha256 replaced locked)
  unfolding validate ◌>>=◌
  Keeps-validate replaced true = record { after = λ s v. v }
  Keeps-validate replaced false = record {
    after = λ s v. set_all_validated-IsValid (map (check_blob sha256 replaced s) s.blobs) s v;
  }

module _ (env : Env) (auth : Auth)
    (same_length : (x y : List ℕ) → env.sha256 x ≡ env.sha256 y → length x ≡ length y) where
  abbrev IsKept : {A : Type 0} → Action A → Type 0
  IsKept m = Keeps (IsValid env.sha256) m

  Keeps-finalize :
      (tenant : String) (i digest size artifact_id tag now : ℕ)
      → Keeps
          (IsValid env.sha256)
          (finalize env.sha256 env.directory_ready tenant i digest size artifact_id tag now)
  Keeps-finalize tenant i digest size artifact_id tag now = record {
    after = λ s v.
        finalize-IsValid env.sha256 same_length env.directory_ready tenant i digest size artifact_id
          tag now s v;
  }

  ruleset keeps_methods = (
    keeps_rules, Keeps-create_upload, Keeps-upload_status, Keeps-put_chunk, Keeps-open,
    Keeps-delete, Keeps-gc, Keeps-validate, Keeps-finalize,
  )

  Keeps-post_uploads : (r : Request) → Keeps (IsValid env.sha256) (post_uploads env auth r)
  unfolding post_uploads
  Keeps-post_uploads r = search keeps_methods depth 16

  Keeps-put_chunks :
      (r : Request) (i : ℕ) (last : List ℕ)
      → Keeps (IsValid env.sha256) (put_chunks env auth r i last)
  unfolding put_chunks
  Keeps-put_chunks r i last = search keeps_methods depth 16

  Keeps-post_finalize :
      (r : Request) (i : ℕ) → Keeps (IsValid env.sha256) (post_finalize env auth r i)
  unfolding post_finalize
  Keeps-post_finalize r i = search keeps_methods depth 16

  Keeps-on_upload : (r : Request) (i : ℕ) → Keeps (IsValid env.sha256) (on_upload env auth r i)
  unfolding on_upload
  Keeps-on_upload r i = search keeps_methods depth 16

  Keeps-on_artifact : (r : Request) (i : ℕ) → Keeps (IsValid env.sha256) (on_artifact env auth r i)
  unfolding on_artifact
  Keeps-on_artifact r i = search keeps_methods depth 16

  Keeps-plain_route : (r : Request) → Keeps (IsValid env.sha256) (plain_route env auth r)
  unfolding plain_route get_artifacts as_admin admin_gc admin_blobs admin_validate
  Keeps-plain_route r = search keeps_methods depth 16

  Keeps-on_route : (rt : Route) (r : Request) → Keeps (IsValid env.sha256) (on_route env auth rt r)
  unfolding on_route
  Keeps-on_route (upload i) r = Keeps-on_upload r i
  Keeps-on_route (chunk i last) r = search (keeps_rules, Keeps-put_chunks)
  Keeps-on_route (finish i) r = search (keeps_rules, Keeps-post_finalize)
  Keeps-on_route (one_artifact i) r = Keeps-on_artifact r i
  Keeps-on_route no_route r = Keeps-plain_route r

  Keeps-dispatch : (r : Request) → Keeps (IsValid env.sha256) (dispatch env auth r)
  unfolding dispatch
  Keeps-dispatch r = search (keeps_rules, Keeps-post_uploads, Keeps-on_route)

  -- Every request, whatever it asks for and however it is answered, leaves a valid store valid:
  -- exact refcounts, and for each artifact a row and a file with its digest and size.
  -- `same_length` says that no two contents of different lengths have one digest.
  pub handle-IsValid :
      (r : Request) (s : Store) → IsValid env.sha256 s → IsValid env.sha256 (handle env auth r s).1
  unfolding handle
  handle-IsValid r s v = (Keeps-dispatch r).after s v
