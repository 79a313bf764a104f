-- ===== src/Vault27b/Recover.antt =====
-- vaultdrop/qwen-3-8-27b-v2/src/vaultdrop/db.py: `recover`, which runs before the first request. Temporary
-- and quarantined files go with the threads that had them.
use qwen_3_8_evals.Prelude.{
  ℕ, Bool, false, not, ◌&&◌, Option, none, some, List, [], ◌∷◌, length, ◌==◌, if◌then◌else◌, select,
  update, delete, any, find, lookup, Dict,
}
use qwen_3_8_evals.Vault27b.Types.{Blob, Store, is_deleted, upload_at, chunk_at, file_at, blob_at}

-- Step 3: chunk files without rows, and rows without files.
unfoldable pub match_chunks : Store → Store
match_chunks s =
    let files = select (λ f. any (chunk_at f.upload_id f.index) s.chunks) s.chunk_files in
    record s {
      chunk_files = files;
      chunks = select (λ c. any (file_at c.upload_id c.index) files) s.chunks;
    }

-- Step 4: the chunks of uploads that are gone.
unfoldable pub drop_strays : Store → Store
drop_strays s = record s {
  chunk_files =
      delete
        (λ f.
          any (λ c. c.upload_id == f.upload_id) s.chunks
          && not (any (upload_at f.upload_id) s.uploads))
        s.chunk_files;
  chunks = select (λ c. any (upload_at c.upload_id) s.uploads) s.chunks;
}

-- Step 5 keeps the files whose row is there and is no tombstone.
abbrev pub is_kept : Option Blob → Bool
is_kept none = false
is_kept (some b) = not (is_deleted b.state)

unfoldable pub keep_files : List Blob → Dict (List ℕ) → Dict (List ℕ)
keep_files blobs [] = []
keep_files blobs ((digest, content) ∷ files) =
    let rest = keep_files blobs files in
    if is_kept (find (blob_at digest) blobs) then (digest, content) ∷ rest else rest

abbrev pub is_short : Option (List ℕ) → ℕ → Bool
is_short none size = false
is_short (some content) size = not (length content == size)

-- `os.path.getsize(path) != b[0]`, for the files that are kept.
abbrev pub is_misfit : Dict (List ℕ) → Blob → Bool
is_misfit files b = not (is_deleted b.state) && is_short (lookup b.content_hash files) b.size

unfoldable pub sweep_blobs : Store → Store
unfolding keep_files
sweep_blobs s = record s {
  blob_files = keep_files s.blobs s.blob_files;
  blobs = update (is_misfit s.blob_files) (λ b. record b { validated = false }) s.blobs;
}

-- Step 6.
unfoldable pub purge : Store → Store
purge s = record s { blobs = delete (λ b. is_deleted b.state) s.blobs }

unfoldable pub recover : Store → Store
unfolding match_chunks drop_strays sweep_blobs purge
recover s = purge (sweep_blobs (drop_strays (match_chunks s)))
