-- ===== src/VaultSol/Uploads/Replay.antt =====
-- `put_chunk` of vaultdrop.py: what it stores, what a replay does, and what an error leaves.
use qwen_3_8_evals.Prelude.{
  ℕ, ◌≤◌, String, ◌≡◌, ◌≢◌, Option, none, some, List, [], arith, length, take, find,
}
use qwen_3_8_evals.Prelude.Int.{ℤ, pos}
use qwen_3_8_evals.VaultSol.Types.{Chunk, Store}
use qwen_3_8_evals.Effect.{ok, ◌>>=◌, finally}
use qwen_3_8_evals.VaultSol.Uploads.{chunk_at, put_chunk}
use qwen_3_8_evals.VaultSol.Uploads.Body.{read_body_exact}

-- The tables and files other than temporaries are as they were.
pub record SameData (s t : Store) : Type 0 where
  pub uploads : t.uploads ≡ s.uploads
  pub chunks : t.chunks ≡ s.chunks
  pub blobs : t.blobs ≡ s.blobs
  pub artifacts : t.artifacts ≡ s.artifacts
  pub chunk_files : t.chunk_files ≡ s.chunk_files
  pub blob_files : t.blob_files ≡ s.blob_files
  pub trash : t.trash ≡ s.trash

-- The row is there, with the size and the digest.
abbrev pub HasChunk : ℕ → ℕ → Option Chunk → Type 0
HasChunk size digest none = ⊥
HasChunk size digest (some c) = (c.size ≡ size) × (c.sha256 ≡ digest)

module _ (sha256 : List ℕ → ℕ) where
  -- A `put_chunk` that does not return normally leaves every table and every file but
  -- temporaries as it was.
  pub put_chunk_error_keeps :
      (tenant : String) (upload_id : ℕ) (index : ℤ) (expected : ℕ) (source : List ℕ) (size tag : ℕ)
      (s : Store)
      → (put_chunk sha256 tenant upload_id index expected source size tag s).0 ≢ ok tt
      → SameData s (put_chunk sha256 tenant upload_id index expected source size tag s).1
  unfolding put_chunk ◌>>=◌ finally
  put_chunk_error_keeps tenant upload_id index expected source size tag s h =
      ground (arith, read_body_exact size size source [])

  -- A `put_chunk` that returns normally has read `size` bytes with the declared digest, and the
  -- chunk has a row with that size and digest.
  pub put_chunk_stores :
      (tenant : String) (upload_id i expected : ℕ) (source : List ℕ) (size tag : ℕ) (s : Store)
      → (put_chunk sha256 tenant upload_id (pos i) expected source size tag s).0 ≡ ok tt
      → let t = (put_chunk sha256 tenant upload_id (pos i) expected source size tag s).1 in
        (size ≤ length source)
        × (sha256 (take size source) ≡ expected)
        × HasChunk size expected (find (chunk_at upload_id i) t.chunks)
  unfolding put_chunk ◌>>=◌ finally find
  put_chunk_stores tenant upload_id i expected source size tag s h =
      ground (arith, read_body_exact size size source [])
