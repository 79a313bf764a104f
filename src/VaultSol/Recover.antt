-- ===== src/VaultSol/Recover.antt =====
-- `recover` of vaultdrop.py, run by `prepare` at startup before any request is served.
pub mod Repairs
pub mod Crashes
use qwen_3_8_evals.Prelude.{
  ℕ, Bool, true, false, not, ◌||◌, Option, none, some, List, [], ◌∷◌, ltb, if◌then◌else◌, find,
  update, delete, any, count, Dict, lookup, put,
}
use qwen_3_8_evals.VaultSol.Types.{
  uploading, finalized, is_finalizing, is_finalized, Upload, Blob, Artifact, ChunkFile, TrashFile,
  Store,
}
use qwen_3_8_evals.VaultSol.Uploads.{upload_at, chunk_at}
use qwen_3_8_evals.VaultSol.Finalize.{artifact_at, blob_at, refers}

-- artifact_id IS NOT NULL AND EXISTS (SELECT 1 FROM artifacts a WHERE a.id=uploads.artifact_id)
abbrev pub has_published : List Artifact → Option ℕ → Bool
has_published rows none = false
has_published rows (some i) = any (artifact_at i) rows

abbrev pub reset : Upload → Upload
reset u = record u {
  state = uploading;
  expected_sha256 = none;
  expected_size = none;
  artifact_id = none;
}

-- The three UPDATEs of the first transaction.
unfoldable pub repair_rows : Store → Store
repair_rows s = record s {
  uploads =
      update (λ u. is_finalizing u.state) reset
        (update (λ u. has_published s.artifacts u.artifact_id) (λ u. record u { state = finalized })
          s.uploads);
  blobs =
      update (λ _. true) (λ b. record b { refcount = count (refers b.content_hash) s.artifacts })
        s.blobs;
}

-- `row is not None and row["refcount"] > 0`
abbrev pub is_referenced : Option Blob → Bool
is_referenced none = false
is_referenced (some b) = ltb 0 b.refcount

-- os.replace(entry, target), unless the target exists.
abbrev pub restore_file : Option (List ℕ) → TrashFile → Dict (List ℕ) → Dict (List ℕ)
restore_file none f files = put f.digest f.content files
restore_file (some _) f files = files

-- The loop over gc-trash; every entry is moved back or unlinked.
unfoldable pub restore_trash : List Blob → List TrashFile → Dict (List ℕ) → Dict (List ℕ)
restore_trash blobs [] files = files
restore_trash blobs (f ∷ rest) files = restore_trash blobs rest (
    if is_referenced (find (blob_at f.digest) blobs)
    then restore_file (lookup f.digest files) f files
    else files)

-- `found is None or found["state"] == "finalized"`, for the join of chunks and uploads.
abbrev pub stale_upload : Option Upload → Bool
stale_upload none = true
stale_upload (some u) = is_finalized u.state

abbrev pub stale_chunk : Store → ChunkFile → Bool
stale_chunk s f =
    not (any (chunk_at f.upload_id f.index) s.chunks)
    || stale_upload (find (upload_at f.upload_id) s.uploads)

-- Files under blobs/ whose digest has no row.
unfoldable pub known_files : List Blob → Dict (List ℕ) → Dict (List ℕ)
known_files blobs [] = []
known_files blobs ((digest, content) ∷ rest) =
    let kept = known_files blobs rest in
    if any (blob_at digest) blobs then (digest, content) ∷ kept else kept

unfoldable pub recover : Store → Store
unfolding repair_rows restore_trash known_files
recover s =
    let r = repair_rows s in
    record r {
      blob_files = known_files r.blobs (restore_trash r.blobs r.trash r.blob_files);
      trash = [];
      chunk_files = delete (stale_chunk r) r.chunk_files;
      temps = [];
    }
