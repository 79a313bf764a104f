-- ===== src/VaultQwen/Valid/Calls.antt =====
-- The calls of vaultdrop/qwen-v3 that leave blobs and artifacts alone.
use qwen_3_8_evals.Prelude.{ℕ, ◌≡◌, String, Option, List, arith}
use qwen_3_8_evals.Json.{Json}
use qwen_3_8_evals.Effect.{◌>>=◌}
use qwen_3_8_evals.VaultQwen.Types.{Store}
use qwen_3_8_evals.VaultQwen.Uploads.{start_upload, store_chunk}
use qwen_3_8_evals.VaultQwen.System.{Call, create, store, perform, System}
use qwen_3_8_evals.VaultQwen.Valid.{IsValid}

pub record SameBlobs (s t : Store) : Type 0 where
  pub artifacts : t.artifacts ≡ s.artifacts
  pub blobs : t.blobs ≡ s.blobs
  pub passes : t.passes ≡ s.passes
  pub blob_files : t.blob_files ≡ s.blob_files

module _ (sha256 : List ℕ → ℕ) where
  create-SameBlobs :
      (tenant : String) (name total_size chunk_size : Json) (upload_id now : ℕ) (s : Store)
      → SameBlobs s (start_upload tenant name total_size chunk_size upload_id now s).1
  unfolding start_upload ◌>>=◌
  create-SameBlobs tenant name total_size chunk_size upload_id now s = record {
    artifacts = ground arith;
    blobs = ground arith;
    passes = ground arith;
    blob_files = ground arith;
  }

  store-SameBlobs :
      (tenant : String) (upload_id index : ℕ) (source : List ℕ) (declared : Option (List ℕ))
      (n tag : ℕ) (s : Store)
      → SameBlobs s (store_chunk sha256 tenant upload_id index source declared n tag s).1
  unfolding store_chunk ◌>>=◌
  store-SameBlobs tenant upload_id index source declared n tag s = record {
    artifacts = ground arith;
    blobs = ground arith;
    passes = ground arith;
    blob_files = ground arith;
  }

  pub perform-SameBlobs : (c : Call) (s : Store) → SameBlobs s (perform sha256 c s)
  unfolding perform
  perform-SameBlobs (create tenant name total_size chunk_size upload_id now) s =
      create-SameBlobs tenant name total_size chunk_size upload_id now s
  perform-SameBlobs (store tenant upload_id index source declared n tag) s =
      store-SameBlobs tenant upload_id index source declared n tag s

  pub call-IsValid :
      (s : System) (t : Store)
      → SameBlobs s.store t
      → IsValid sha256 s
      → IsValid sha256 (record s { store = t })
  call-IsValid s t same v = record {
    store_valid = record {
      sound = λ h. rw (same.artifacts, same.blobs, same.blob_files) (v.store_valid.sound h);
      addressed = λ h content e. v.store_valid.addressed h content (rw same.blob_files at e);
      ids = rw same.artifacts v.store_valid.ids;
      hashes = rw same.blobs v.store_valid.hashes;
      begun = rw (same.blobs, same.passes) v.store_valid.begun;
    };
    held = λ i h o. rw (same.blobs, same.blob_files) (v.held i h o);
    single = v.single;
    tidy = v.tidy;
  }
