-- ===== src/VaultSol/Finalize/Outcome.antt =====
-- What `finalize` of vaultdrop.py gives on each way it ends.
use qwen_3_8_evals.Prelude.{
  ℕ, String, ◌≡◌, refl, ◌∙◌, Bool, true, false, inl, inr, ◌||◌, Option, none, some, List, [], ◌∷◌,
  arith, length, sum, ◌==◌, find, update, delete, any, lookup, lookup-put, Option-cases,
}
use qwen_3_8_evals.VaultSol.Types.{uploading, finalizing, Upload, Store}
use qwen_3_8_evals.Effect.{is_ok, Outcome-cases, continue, ok, ◌>>=◌, finally, on_fault}
use qwen_3_8_evals.VaultSol.Uploads.{owned, upload_at, write_temp, unlink_temp, chunk_count}
use qwen_3_8_evals.VaultSol.Finalize.{
  chunk_sizes, Frozen, already, frozen, freeze_upload, set_finalizing, unfreeze, assemble,
  install_blob, commit_artifact, cleanup_chunk_files, publish_content, reject, build, finish_frozen,
  finalize,
}
use qwen_3_8_evals.VaultSol.Invariant.Methods.{freeze_upload-Untouched}

module _ (sha256 : List ℕ → ℕ) where
  build_error_keeps :
      (tenant : String) (row : Upload) (i digest size artifact_id tag now : ℕ) (s : Store)
      → is_ok (build sha256 tenant row i digest size artifact_id tag now s).0 ≡ false
      → let t = (build sha256 tenant row i digest size artifact_id tag now s).1 in
        (t.artifacts ≡ s.artifacts) × (t.blobs ≡ s.blobs)
  unfolding build publish_content reject unfreeze commit_artifact install_blob write_temp
      cleanup_chunk_files ◌>>=◌
  build_error_keeps tenant row i digest size artifact_id tag now s h = ground arith

  finish_error_keeps :
      (ready : Bool) (f : Frozen) (tenant : String) (i digest size artifact_id tag now : ℕ)
      (s : Store)
      → is_ok (finish_frozen sha256 ready f tenant i digest size artifact_id tag now s).0 ≡ false
      → let t = (finish_frozen sha256 ready f tenant i digest size artifact_id tag now s).1 in
        (t.artifacts ≡ s.artifacts) × (t.blobs ≡ s.blobs)
  unfolding finish_frozen finally on_fault unlink_temp unfreeze ◌>>=◌
  finish_error_keeps ready (already a) tenant i digest size artifact_id tag now s h = cc
  finish_error_keeps false (frozen row) tenant i digest size artifact_id tag now s h = (refl, refl)
  finish_error_keeps true (frozen row) tenant i digest size artifact_id tag now s h =
      ground (arith, build_error_keeps tenant row i digest size artifact_id tag now s)

  -- A finalize that does not return normally has published nothing: the artifacts and the blob
  -- rows, refcounts included, are as they were.
  pub finalize_error_keeps :
      (ready : Bool) (tenant : String) (upload_id digest size artifact_id tag now : ℕ) (s : Store)
      → is_ok (finalize sha256 ready tenant upload_id digest size artifact_id tag now s).0 ≡ false
      → let t = (finalize sha256 ready tenant upload_id digest size artifact_id tag now s).1 in
        (t.artifacts ≡ s.artifacts) × (t.blobs ≡ s.blobs)
  unfolding finalize ◌>>=◌
  finalize_error_keeps ready tenant upload_id digest size artifact_id tag now s h =
      let f = freeze_upload tenant upload_id digest size s in
      let same = freeze_upload-Untouched tenant upload_id digest size s in
      elim (Outcome-cases f.0
        (λ fr. finish_frozen sha256 ready fr tenant upload_id digest size artifact_id tag now)) [
          | inl (fr, e) ↦
              let (p, q) =
                finish_error_keeps ready fr tenant upload_id digest size artifact_id tag now f.1
                  (rw (e, continue) at h) in
              rw (e, continue) (p ∙ same.artifacts, q ∙ same.blobs)
          | inr stop ↦ rw (stop f.1) (same.artifacts, same.blobs)
        ]

  -- The file is the assembled content, and has the digest and the size.
  abbrev pub IsFile : ℕ → ℕ → Option (List ℕ) → Option (List ℕ) → Type 0
  IsFile digest size none file = ⊥
  IsFile digest size (some content) file =
      (file ≡ some content) × (sha256 content ≡ digest) × (length content ≡ size)

  build_publishes :
      (tenant : String) (row : Upload) (i digest size artifact_id tag now a : ℕ) (s : Store)
      → (build sha256 tenant row i digest size artifact_id tag now s).0 ≡ ok a
      → let t = (build sha256 tenant row i digest size artifact_id tag now s).1 in
        (a ≡ artifact_id)
        × (t.artifacts
            ≡ record {
              id = artifact_id;
              tenant_id = tenant;
              upload_id = i;
              name = row.name;
              size = size;
              sha256 = digest;
              created_at = now;
            }
              ∷ s.artifacts)
        × IsFile digest size
            (assemble i 0 (chunk_count row) s.chunk_files)
            (lookup digest t.blob_files)
  unfolding build publish_content reject unfreeze commit_artifact install_blob write_temp
      cleanup_chunk_files ◌>>=◌
  build_publishes tenant row i digest size artifact_id tag now a s h =
      elim (Option-cases (assemble i 0 (chunk_count row) s.chunk_files)) [
        | inl missing ↦ ground arith
        | inr (c, e) ↦ ground (arith, lookup-put digest digest c s.blob_files)
      ]

  -- A finalize of an upload that takes chunks, when it returns normally, answers with a new
  -- artifact of the upload's name under the declared digest and size; the file under the digest
  -- is the upload's chunk files put together in order, and has that digest and size, and the
  -- size is the upload's total.
  pub finalize_publishes :
      (ready : Bool) (tenant : String) (upload_id digest size artifact_id tag now a : ℕ) (s : Store)
      (u : Upload)
      → find (owned tenant upload_id) s.uploads ≡ some u
      → u.state ≡ uploading
      → (finalize sha256 ready tenant upload_id digest size artifact_id tag now s).0 ≡ ok a
      → let t = (finalize sha256 ready tenant upload_id digest size artifact_id tag now s).1 in
        (a ≡ artifact_id)
        × (t.artifacts
            ≡ record {
              id = artifact_id;
              tenant_id = tenant;
              upload_id = upload_id;
              name = u.name;
              size = size;
              sha256 = digest;
              created_at = now;
            }
              ∷ s.artifacts)
        × IsFile digest size
            (assemble upload_id 0 (chunk_count u) s.chunk_files)
            (lookup digest t.blob_files)
        × (size ≡ u.total_size)
  unfolding finalize freeze_upload finish_frozen finally on_fault unlink_temp ◌>>=◌
  finalize_publishes ready tenant upload_id digest size artifact_id tag now a s u found up h =
      ground (
        arith,
        build_publishes tenant u upload_id digest size artifact_id tag now a
            (set_finalizing upload_id digest size s),
      )

-- Every chunk has a row, and their sizes add up.
abbrev pub IsComplete : Upload → List ℕ → Type 0
IsComplete u sizes = (length sizes ≡ chunk_count u) × (sum sizes ≡ u.total_size)

find-update :
    (tenant : String) (i digest size : ℕ) (rows : List Upload) (u : Upload)
    → find (owned tenant i) rows ≡ some u
    → find (owned tenant i) (
        update
          (upload_at i)
          (λ x. record x {
            state = finalizing;
            expected_sha256 = some digest;
            expected_size = some size;
          })
          rows)
      ≡ some (record u {
        state = finalizing;
        expected_sha256 = some digest;
        expected_size = some size;
      })
unfolding find update
find-update tenant i digest size [] u e = cc
find-update tenant i digest size (x ∷ rows) u e =
    ground (arith, find-update tenant i digest size rows u)

module _ (sha256 : List ℕ → ℕ) where
  -- A finalize of an upload that takes chunks, all of which have their rows and files, returns
  -- normally when the chunks put together have the upload's total size and the declared digest
  -- and the new artifact's keys are free; it answers with the new id and removes the chunk files.
  pub finalize_completes :
      (tenant : String) (upload_id digest artifact_id tag now : ℕ) (s : Store) (u : Upload)
      (content : List ℕ)
      → find (owned tenant upload_id) s.uploads ≡ some u
      → u.state ≡ uploading
      → IsComplete u (chunk_sizes upload_id s.chunks)
      → assemble upload_id 0 (chunk_count u) s.chunk_files ≡ some content
      → length content ≡ u.total_size
      → sha256 content ≡ digest
      → any (λ a. a.id == artifact_id || a.upload_id == upload_id) s.artifacts ≡ false
      → let (r, t) =
          finalize sha256 true tenant upload_id digest u.total_size artifact_id tag now s in
        (r ≡ ok artifact_id)
        × (t.chunk_files ≡ delete (λ f. f.upload_id == upload_id) s.chunk_files)
  unfolding finalize freeze_upload finish_frozen build publish_content reject commit_artifact
      install_blob write_temp cleanup_chunk_files unlink_temp finally on_fault ◌>>=◌
  finalize_completes tenant upload_id digest artifact_id tag now s u content found up complete e l d
        free =
      ground (
        arith,
        complete.0,
        complete.1,
        find-update tenant upload_id digest u.total_size s.uploads u found,
      )
