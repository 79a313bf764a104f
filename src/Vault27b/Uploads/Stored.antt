-- ===== src/Vault27b/Uploads/Stored.antt =====
-- What `put_chunk` of vaultdrop/qwen-3-8-27b-v2 leaves in the table and in the directory.
use qwen_3_8_evals.Prelude.{
  ℕ, ◌≡◌, String, ◌&&◌, Option, none, some, List, [], ◌∷◌, length, arith, find, delete, ◌==◌,
  if◌then◌else◌,
}
use qwen_3_8_evals.Effect.{ok, ◌>>=◌}
use qwen_3_8_evals.Vault27b.Types.{Chunk, ChunkFile, Store, chunk_at, file_at}
use qwen_3_8_evals.Vault27b.Uploads.{put_chunk}

find_file-delete :
    (u i v j : ℕ) (files : List ChunkFile)
    → find (file_at u i) (delete (file_at v j) files)
      ≡ (if u == v && i == j then none else find (file_at u i) files)
unfolding find delete
find_file-delete u i v j [] = ground arith
find_file-delete u i v j (f ∷ files) = ground (arith, find_file-delete u i v j files)

module _ (sha256 : List ℕ → ℕ) where
  -- The file of a chunk's row.
  abbrev pub Backed : Chunk → Option ChunkFile → Type 0
  Backed c none = ⊥
  Backed c (some f) = (sha256 f.content ≡ c.content_hash) × (length f.content ≡ c.size)

  abbrev pub BackedIf : Option Chunk → Option ChunkFile → Type 0
  BackedIf none file = Unit
  BackedIf (some c) file = Backed c file

  -- Each row has its file, with its digest and its size.
  abbrev pub IsBacked : Store → Type 0
  IsBacked s =
      (u i : ℕ) → BackedIf (find (chunk_at u i) s.chunks) (find (file_at u i) s.chunk_files)

  -- Whatever a call of `put_chunk` does, if each row of `chunks` has its file, with its digest and its
  -- size, that stays so.
  pub put_chunk-IsBacked :
      (tenant : String) (upload_id index : ℕ) (source : List ℕ) (declared : Option (List ℕ)) (n : ℕ)
      (s : Store)
      → IsBacked s
      → IsBacked (put_chunk sha256 tenant upload_id index source declared n s).1
  unfolding put_chunk ◌>>=◌ find
  put_chunk-IsBacked tenant upload_id index source declared n s b u i =
      ground (arith, b u i, find_file-delete u i upload_id index s.chunk_files)

  -- A chunk that was put may be put again with the same request: the answer is the same, and nothing
  -- changes.
  pub put_chunk_replays :
      (tenant : String) (upload_id index : ℕ) (source : List ℕ) (declared : Option (List ℕ)) (n : ℕ)
      (s t : Store)
      → put_chunk sha256 tenant upload_id index source declared n s ≡ (ok tt, t)
      → put_chunk sha256 tenant upload_id index source declared n t ≡ (ok tt, t)
  unfolding put_chunk ◌>>=◌ find
  put_chunk_replays tenant upload_id index source declared n s t e = ground (arith, e)
