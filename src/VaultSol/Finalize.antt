-- ===== src/VaultSol/Finalize.antt =====
-- `_freeze_upload`, `_unfreeze`, `finalize` and `cleanup_chunk_files` of vaultdrop.py, each
-- transaction and each move of a file as a function of its own: between two of them another
-- request, or a crash, may come.
pub mod Outcome
pub mod Download
use qwen_3_8_evals.Prelude.{
  ℕ, zero, suc, ◌+◌, String, Bool, true, false, not, ◌&&◌, ◌||◌, Option, none, some, List, [], ◌∷◌,
  ◌++◌, map, length, sum, ◌==◌, if◌then◌else◌, str_eq, find, select, update, delete, any, put,
}
use qwen_3_8_evals.VaultSol.Types.{
  UploadState, uploading, finalizing, finalized, is_finalizing, Upload, Chunk, Blob, Artifact,
  ChunkFile, TempFile, Store,
}
use qwen_3_8_evals.VaultSol.Action.{Action, api_error}
use qwen_3_8_evals.Effect.{
  ok, err, fault, pure, raise, or_fault, gets, or_raise, ◌>>=◌, ◌>>◌, raise_if, fault_if, modify,
  finally, on_fault,
}
use qwen_3_8_evals.VaultSol.Uploads.{
  owned, upload_at, file_at, temp_at, chunk_count, write_temp, unlink_temp,
}

-- WHERE id=? AND tenant_id=?
abbrev pub artifact_owned : String → ℕ → Artifact → Bool
artifact_owned tenant artifact_id a = a.id == artifact_id && str_eq a.tenant_id tenant

abbrev pub artifact_at : ℕ → Artifact → Bool
artifact_at artifact_id a = a.id == artifact_id

abbrev pub blob_at : ℕ → Blob → Bool
blob_at digest b = b.content_hash == digest

-- `artifacts.sha256 = digest`
abbrev pub refers : ℕ → Artifact → Bool
refers digest a = a.sha256 == digest

-- An earlier finalize answers at once; otherwise the upload as it was frozen.
pub data Frozen : Type 0 where
  already : ℕ → Frozen
  frozen : Upload → Frozen

-- `row[...] == value`, false for NULL.
abbrev pub is_value : Option ℕ → ℕ → Bool
is_value none v = false
is_value (some w) v = w == v

-- SELECT 1 FROM artifacts WHERE id=? AND tenant_id=?, where the id may be NULL.
abbrev pub has_artifact : String → Option ℕ → List Artifact → Bool
has_artifact tenant none rows = false
has_artifact tenant (some i) rows = any (artifact_owned tenant i) rows

abbrev pub or_zero : Option ℕ → ℕ
or_zero none = 0
or_zero (some i) = i

-- The branch on a finalized row.
unfoldable pub freeze_again : String → Upload → ℕ → ℕ → Action Frozen
freeze_again tenant row digest size = do
  artifact ← gets (λ s. has_artifact tenant row.artifact_id s.artifacts)
  raise_if
      (not (artifact && is_value row.expected_sha256 digest && is_value row.expected_size size))
      (api_error 409 "upload already finalized")
  pure (already (or_zero row.artifact_id))

abbrev pub chunk_sizes : ℕ → List Chunk → List ℕ
chunk_sizes upload_id rows = map (λ c. c.size) (select (λ c. c.upload_id == upload_id) rows)

-- UPDATE uploads SET state='finalizing', ... WHERE id=?
unfoldable pub set_finalizing : ℕ → ℕ → ℕ → Store → Store
set_finalizing upload_id digest size s = record s {
  uploads =
      update (upload_at upload_id)
        (λ u. record u {
          state = finalizing;
          expected_sha256 = some digest;
          expected_size = some size;
        })
        s.uploads;
}

-- The branch on a row that still takes chunks.
unfoldable pub freeze_now : Upload → ℕ → ℕ → ℕ → Action Frozen
unfolding chunk_count set_finalizing
freeze_now row upload_id digest size = do
  raise_if (not (size == row.total_size)) (api_error 422 "declared size does not match upload")
  sizes ← gets (λ s. chunk_sizes upload_id s.chunks)
  raise_if (not (length sizes == chunk_count row) || not (sum sizes == row.total_size))
      (api_error 422 "upload is incomplete")
  modify (set_finalizing upload_id digest size)
  pure (frozen row)

unfoldable pub freeze_state : UploadState → String → Upload → ℕ → ℕ → ℕ → Action Frozen
unfolding freeze_again freeze_now
freeze_state finalized tenant row upload_id digest size = freeze_again tenant row digest size
freeze_state finalizing tenant row upload_id digest size =
    raise (api_error 409 "upload finalization in progress")
freeze_state uploading tenant row upload_id digest size = freeze_now row upload_id digest size

unfoldable pub freeze_upload : String → ℕ → ℕ → ℕ → Action Frozen
unfolding freeze_state
freeze_upload tenant upload_id digest size = do
  found ← gets (λ s. find (owned tenant upload_id) s.uploads)
  row ← or_raise found (api_error 404 "upload not found")
  freeze_state row.state tenant row upload_id digest size

-- WHERE id=? AND state='finalizing'
abbrev pub finalizing_at : ℕ → Upload → Bool
finalizing_at upload_id u = u.id == upload_id && is_finalizing u.state

unfoldable pub unfreeze : ℕ → Store → Store
unfreeze upload_id s = record s {
  uploads =
      update (finalizing_at upload_id)
        (λ u. record u { state = uploading; expected_sha256 = none; expected_size = none })
        s.uploads;
}

abbrev pub content_of : Option ChunkFile → Option (List ℕ)
content_of none = none
content_of (some f) = some f.content

abbrev pub append_both : Option (List ℕ) → Option (List ℕ) → Option (List ℕ)
append_both (some xs) (some ys) = some (xs ++ ys)
append_both none _ = none
append_both (some xs) none = none

-- The loop over the chunk files: those from `index` on, of which `left` remain. `none` means that
-- one is missing, so that `open` raises.
unfoldable pub assemble : ℕ → ℕ → ℕ → List ChunkFile → Option (List ℕ)
assemble upload_id index zero files = some []
assemble upload_id index (suc left) files =
    append_both (content_of (find (file_at upload_id index) files))
      (assemble upload_id (suc index) left files)

-- os.replace(temp, target)
unfoldable pub install_blob : ℕ → ℕ → List ℕ → Store → Store
install_blob digest tag content s = record s {
  blob_files = put digest content s.blob_files;
  temps = delete (temp_at tag) s.temps;
}

-- INSERT INTO blobs ... ON CONFLICT(content_hash) DO UPDATE
unfoldable pub upsert_blob : ℕ → ℕ → ℕ → List Blob → List Blob
upsert_blob digest size now [] =
    record { content_hash = digest; size = size; refcount = 0; validated = true; created_at = now }
    ∷ []
upsert_blob digest size now (b ∷ rows) =
    if b.content_hash == digest
    then record b { size = size; validated = true; created_at = now } ∷ rows
    else b ∷ upsert_blob digest size now rows

abbrev pub increment : Blob → Blob
increment b = record b { refcount = b.refcount + 1 }

-- The four statements of the publishing transaction.
unfoldable pub publish : Artifact → Store → Store
unfolding upsert_blob
publish a s = record s {
  blobs = update (blob_at a.sha256) increment (upsert_blob a.sha256 a.size a.created_at s.blobs);
  artifacts = a ∷ s.artifacts;
  uploads =
      update (upload_at a.upload_id) (λ u. record u { state = finalized; artifact_id = some a.id })
        s.uploads;
}

-- The transaction with its test of the state and the keys of the artifacts table.
unfoldable pub commit_artifact : Artifact → Action (Unit {0})
unfolding publish
commit_artifact a = do
  row ← gets (λ s. find (owned a.tenant_id a.upload_id) s.uploads)
  state ← or_fault row "finalization state changed unexpectedly"
  fault_if (not (is_finalizing state.state)) "finalization state changed unexpectedly"
  taken ← gets (λ s. any (λ b. b.id == a.id || b.upload_id == a.upload_id) s.artifacts)
  fault_if taken "UNIQUE constraint failed: artifacts"
  modify (publish a)

abbrev pub owned_temp : ℕ → TempFile → Bool
owned_temp upload_id t = is_value t.owner upload_id

-- Every file under uploads/<upload_id>/chunks, temporaries too.
unfoldable pub cleanup_chunk_files : ℕ → Store → Store
cleanup_chunk_files upload_id s = record s {
  chunk_files = delete (λ f. f.upload_id == upload_id) s.chunk_files;
  temps = delete (owned_temp upload_id) s.temps;
}

-- `self._unfreeze(upload_id)` before an ApiError.
unfoldable pub reject : ℕ → Bool → Action (Unit {0})
unfolding unfreeze
reject upload_id false s = (ok tt, s)
reject upload_id true s =
    (err (api_error 422 "artifact checksum or size mismatch"), unfreeze upload_id s)

-- From the move of the verified file to the end of the `try`.
unfoldable pub publish_content : Artifact → ℕ → List ℕ → Action ℕ
publish_content a tag content = do
  modify (install_blob a.sha256 tag content)
  commit_artifact a
  modify (cleanup_chunk_files a.upload_id)
  pure a.id

module _ (sha256 : List ℕ → ℕ) where
  -- The body of the `try` of `finalize`, after the upload is frozen.
  unfoldable pub build : String → Upload → ℕ → ℕ → ℕ → ℕ → ℕ → ℕ → Action ℕ
  build tenant row upload_id digest size artifact_id tag now = do
    files ← gets (λ s. s.chunk_files)
    content ← or_fault (assemble upload_id 0 (chunk_count row) files) "chunk file missing"
    modify (write_temp none tag content)
    reject upload_id (not (length content == size) || not (sha256 content == digest))
    publish_content
        (record {
          id = artifact_id;
          tenant_id = tenant;
          upload_id = upload_id;
          name = row.name;
          size = size;
          sha256 = digest;
          created_at = now;
        })
        tag content

  -- `ready`: whether the mkdir of the blob's directory and the fsync of blobs/ succeed. They stand before
  -- the `try`, so that an OSError in them leaves the upload frozen.
  unfoldable pub finish_frozen : Bool → Frozen → String → ℕ → ℕ → ℕ → ℕ → ℕ → ℕ → Action ℕ
  finish_frozen ready (already i) tenant upload_id digest size artifact_id tag now = pure i
  finish_frozen false (frozen row) tenant upload_id digest size artifact_id tag now =
      λ s. (fault "OSError", s)
  finish_frozen true (frozen row) tenant upload_id digest size artifact_id tag now =
      finally
        (on_fault (build tenant row upload_id digest size artifact_id tag now) (unfreeze upload_id))
        (unlink_temp tag)

  unfoldable pub finalize : Bool → String → ℕ → ℕ → ℕ → ℕ → ℕ → ℕ → Action ℕ
  finalize ready tenant upload_id digest size artifact_id tag now = do
    f ← freeze_upload tenant upload_id digest size
    finish_frozen ready f tenant upload_id digest size artifact_id tag now
