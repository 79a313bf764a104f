-- ===== src/VaultSol/Samples.antt =====
-- Data for the runs of vaultdrop.py's model: a digest that is easy to compute, and some stores.
use qwen_3_8_evals.Prelude.{
  ℕ, ◌+◌, ◌*◌, ◌%◌, ◌≡◌, true, none, some, List, [], ◌∷◌, length, sum, arith,
}
use qwen_3_8_evals.VaultSol.Types.{
  uploading, finalized, Upload, Chunk, Blob, Artifact, ChunkFile, Store, empty,
}

-- Stands in for hashlib.sha256: contents with one digest have one length.
abbrev pub toy_hash : List ℕ → ℕ
toy_hash content = length content * 256 + sum content % 256

pub toy_hash-length : (x y : List ℕ) → toy_hash x ≡ toy_hash y → length x ≡ length y
toy_hash-length x y e = omega arith

abbrev pub bytes : List ℕ
bytes = 10 ∷ 20 ∷ 30 ∷ 40 ∷ 50 ∷ []

abbrev pub acme_upload : Upload
acme_upload = record {
  id = 1;
  tenant_id = "acme";
  name = "report";
  total_size = 5;
  chunk_size = 2;
  state = uploading;
  expected_sha256 = none;
  expected_size = none;
  artifact_id = none;
  created_at = 100;
}

abbrev pub chunk_file : ℕ → List ℕ → ChunkFile
chunk_file i content = record { upload_id = 1; index = i; content = content }

abbrev pub chunk_row : ℕ → ℕ → ℕ → Chunk
chunk_row i size digest = record { upload_id = 1; chunk_index = i; size = size; sha256 = digest }

-- All three chunks of the upload are there, and it is not finalized.
abbrev pub loaded : Store
loaded = record empty {
  uploads = acme_upload ∷ [];
  chunks = chunk_row 2 1 306 ∷ chunk_row 1 2 582 ∷ chunk_row 0 2 542 ∷ [];
  chunk_files =
      chunk_file 2 (50 ∷ []) ∷ chunk_file 1 (30 ∷ 40 ∷ []) ∷ chunk_file 0 (10 ∷ 20 ∷ []) ∷ [];
}

abbrev pub report_artifact : Artifact
report_artifact = record {
  id = 7;
  tenant_id = "acme";
  upload_id = 1;
  name = "report";
  size = 5;
  sha256 = 1430;
  created_at = 200;
}

abbrev pub report_blob : Blob
report_blob = record {
  content_hash = 1430;
  size = 5;
  refcount = 1;
  validated = true;
  created_at = 200;
}

abbrev pub stale_blob : Blob
stale_blob = record {
  content_hash = 306;
  size = 1;
  refcount = 0;
  validated = true;
  created_at = 150;
}

-- The same upload once it is finalized.
abbrev pub finished_upload : Upload
finished_upload = record acme_upload {
  state = finalized;
  expected_sha256 = some 1430;
  expected_size = some 5;
  artifact_id = some 7;
}

-- The upload before its first chunk.
abbrev pub fresh : Store
fresh = record empty { uploads = acme_upload ∷ [] }

-- After the finalize, beside a blob that nothing refers to any more.
abbrev pub stored : Store
stored = record empty {
  uploads = finished_upload ∷ [];
  chunks = loaded.chunks;
  blobs = report_blob ∷ stale_blob ∷ [];
  artifacts = report_artifact ∷ [];
  blob_files = (1430, bytes) ∷ (306, 50 ∷ []) ∷ [];
}

-- A second artifact with the same content.
abbrev pub paired : Store
paired = record stored {
  artifacts =
      report_artifact ∷ record report_artifact { id = 8; upload_id = 2; name = "copy" } ∷ [];
  blobs = record report_blob { refcount = 2 } ∷ [];
}

-- A crash in a garbage collection has left the artifact's file in the trash.
abbrev pub trashed : Store
trashed = record stored {
  blob_files = [];
  trash = record { digest = 1430; tag = 3; content = bytes } ∷ [];
}
