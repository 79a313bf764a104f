-- ===== src/Vault27b/Counts/Calls.antt =====
-- The requests of vaultdrop/qwen-3-8-27b-v2 that leave blobs and artifacts alone.
use qwen_3_8_evals.Prelude.{ℕ, ◌≡◌, String, Option, List, arith}
use qwen_3_8_evals.Json.{Json}
use qwen_3_8_evals.Effect.{◌>>=◌}
use qwen_3_8_evals.Vault27b.Types.{Store}
use qwen_3_8_evals.Vault27b.Uploads.{create_upload, put_chunk}

pub record SameBlobs (s t : Store) : Type 0 where
  pub artifacts : t.artifacts ≡ s.artifacts
  pub blobs : t.blobs ≡ s.blobs
  pub blob_files : t.blob_files ≡ s.blob_files

pub create-SameBlobs :
    (tenant : String) (name total_size chunk_size : Json) (upload_id now : ℕ) (s : Store)
    → SameBlobs s (create_upload tenant name total_size chunk_size upload_id now s).1
unfolding create_upload ◌>>=◌
create-SameBlobs tenant name total_size chunk_size upload_id now s = record {
  artifacts = ground arith;
  blobs = ground arith;
  blob_files = ground arith;
}

pub put_chunk-SameBlobs :
    (sha256 : List ℕ → ℕ) (tenant : String) (upload_id index : ℕ) (source : List ℕ)
    (declared : Option (List ℕ)) (n : ℕ) (s : Store)
    → SameBlobs s (put_chunk sha256 tenant upload_id index source declared n s).1
unfolding put_chunk ◌>>=◌
put_chunk-SameBlobs sha256 tenant upload_id index source declared n s = record {
  artifacts = ground arith;
  blobs = ground arith;
  blob_files = ground arith;
}
