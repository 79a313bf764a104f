-- ===== src/VaultSol/Uploads.antt =====
-- `create_upload`, `upload_status` and `put_chunk` of vaultdrop.py. The bytes that the connection
-- still holds, the random tags and ids, and the clock are arguments; `sha256` is hashlib's.
pub mod Body
pub mod Replay
pub mod Foreign
use qwen_3_8_evals.Prelude.{
  ℕ, zero, suc, ◌+◌, ◌-◌, ◌*◌, ◌/◌, min, String, Bool, not, ◌&&◌, Option, none, some, List, [], ◌∷◌,
  ◌++◌, map, length, take, drop, leb, ◌==◌, if◌then◌else◌, str_eq, find, select, delete, any, sort,
}
use qwen_3_8_evals.Prelude.Int.{ℤ, pos, negsuc}
use qwen_3_8_evals.VaultSol.Types.{
  UploadState, uploading, is_uploading, Upload, Chunk, ChunkFile, TempFile, Store,
}
use qwen_3_8_evals.VaultSol.Action.{Action, api_error, closing_error}
use qwen_3_8_evals.Effect.{pure, gets, or_raise, ◌>>=◌, ◌>>◌, raise_if, fault_if, modify, finally}

-- WHERE id=? AND tenant_id=?
abbrev pub owned : String → ℕ → Upload → Bool
owned tenant upload_id u = u.id == upload_id && str_eq u.tenant_id tenant

abbrev pub upload_at : ℕ → Upload → Bool
upload_at upload_id u = u.id == upload_id

-- WHERE upload_id=? and chunk_index=?
abbrev pub chunk_at : ℕ → ℕ → Chunk → Bool
chunk_at upload_id index c = c.upload_id == upload_id && c.chunk_index == index

abbrev pub file_at : ℕ → ℕ → ChunkFile → Bool
file_at upload_id index f = f.upload_id == upload_id && f.index == index

abbrev pub temp_at : ℕ → TempFile → Bool
temp_at tag t = t.tag == tag

-- INSERT INTO uploads under its PRIMARY KEY and its CHECK on `chunk_size`.
unfoldable pub create_upload : String → String → ℕ → ℕ → ℕ → ℕ → Action ℕ
create_upload tenant name total chunk upload_id now = do
  taken ← gets (λ s. any (upload_at upload_id) s.uploads)
  fault_if taken "UNIQUE constraint failed: uploads.id"
  fault_if (chunk == 0) "CHECK constraint failed: chunk_size > 0"
  modify λ s. record s {
    uploads =
        s.uploads
        ++ record {
          id = upload_id;
          tenant_id = tenant;
          name = name;
          total_size = total;
          chunk_size = chunk;
          state = uploading;
          expected_sha256 = none;
          expected_size = none;
          artifact_id = none;
          created_at = now;
        }
          ∷ [];
  }
  pure upload_id

pub record Status : Type 0 where
  pub upload_id : ℕ
  pub received : List ℕ
  pub state : UploadState

unfoldable pub upload_status : String → ℕ → Action Status
upload_status tenant upload_id = do
  row ← gets (λ s. find (owned tenant upload_id) s.uploads)
  u ← or_raise row (api_error 404 "upload not found")
  received ←
      gets
        (λ s. sort leb (map (λ c. c.chunk_index) (select (λ c. c.upload_id == upload_id) s.chunks)))
  pure (record { upload_id = u.id; received = received; state = u.state })

unfoldable pub chunk_count : Upload → ℕ
chunk_count u = (u.total_size + u.chunk_size - 1) / u.chunk_size

unfoldable pub wanted_size : Upload → ℕ → ℕ
wanted_size u index = min u.chunk_size (u.total_size - index * u.chunk_size)

-- `index < 0 or index >= count`
unfoldable pub in_range : Upload → ℤ → Option ℕ
unfolding chunk_count
in_range u (pos index) = if leb (chunk_count u) index then none else some index
in_range u (negsuc _) = none

-- The checks of `put_chunk` before the body is read.
unfoldable pub check_chunk : String → ℕ → ℤ → ℕ → Action ℕ
unfolding in_range wanted_size
check_chunk tenant upload_id index length = do
  row ← gets (λ s. find (owned tenant upload_id) s.uploads)
  upload ← or_raise row (closing_error 404 "upload not found")
  raise_if (not (is_uploading upload.state)) (closing_error 409 "upload is not accepting chunks")
  i ← or_raise (in_range upload index) (closing_error 422 "chunk index out of range")
  raise_if (not (length == wanted_size upload i)) (closing_error 422 "incorrect chunk length")
  pure i

abbrev pub io_block : ℕ
io_block = 1048576

-- The `while remaining` loop: `source.read(n)` gives `n` bytes, or all up to the end; `none` means
-- that a read gave nothing. The fuel is the number of rounds allowed.
unfoldable pub read_body : ℕ → ℕ → List ℕ → List ℕ → Option (List ℕ)
read_body zero remaining source out = if remaining == 0 then some out else none
read_body (suc fuel) remaining source out =
    let block = take (min io_block remaining) source in
    let rest =
      read_body fuel (remaining - length block) (drop (min io_block remaining) source)
        (out ++ block) in
    if remaining == 0 then some out else if length block == 0 then none else rest

-- os.replace(temp, final)
unfoldable pub install_chunk : ℕ → ℕ → ℕ → List ℕ → Store → Store
install_chunk upload_id index tag content s = record s {
  chunk_files =
      record { upload_id = upload_id; index = index; content = content }
      ∷ delete (file_at upload_id index) s.chunk_files;
  temps = delete (temp_at tag) s.temps;
}

-- INSERT INTO chunks
unfoldable pub insert_chunk : ℕ → ℕ → ℕ → ℕ → Store → Store
insert_chunk upload_id index size digest s = record s {
  chunks =
      record { upload_id = upload_id; chunk_index = index; size = size; sha256 = digest }
      ∷ s.chunks;
}

-- The branch on the row that is there already.
unfoldable pub replay_or_insert :
    Option Chunk → UploadState → ℕ → ℕ → ℕ → ℕ → ℕ → List ℕ → Action (Unit {0})
unfolding install_chunk insert_chunk
replay_or_insert (some c) state upload_id index length digest tag content =
    raise_if (not (c.size == length && c.sha256 == digest))
      (api_error 409 "conflicting chunk replay")
replay_or_insert none state upload_id index length digest tag content = do
  raise_if (not (is_uploading state)) (api_error 409 "upload is not accepting chunks")
  modify (install_chunk upload_id index tag content)
  modify (insert_chunk upload_id index length digest)

-- The transaction at the end of `put_chunk`: the upload is read again.
unfoldable pub commit_chunk : String → ℕ → ℕ → ℕ → ℕ → ℕ → List ℕ → Action (Unit {0})
unfolding replay_or_insert
commit_chunk tenant upload_id index length digest tag content = do
  row ← gets (λ s. find (owned tenant upload_id) s.uploads)
  current ← or_raise row (api_error 404 "upload not found")
  old ← gets (λ s. find (chunk_at upload_id index) s.chunks)
  replay_or_insert old current.state upload_id index length digest tag content

unfoldable pub write_temp : Option ℕ → ℕ → List ℕ → Store → Store
write_temp owner tag content s = record s {
  temps = record { owner = owner; tag = tag; content = content } ∷ s.temps;
}

-- unlink_if_present(temp)
unfoldable pub unlink_temp : ℕ → Store → Store
unlink_temp tag s = record s { temps = delete (temp_at tag) s.temps }

module _ (sha256 : List ℕ → ℕ) where
  unfoldable pub put_chunk : String → ℕ → ℤ → ℕ → List ℕ → ℕ → ℕ → Action (Unit {0})
  unfolding check_chunk commit_chunk write_temp unlink_temp
  put_chunk tenant upload_id index expected source size tag = do
    i ← check_chunk tenant upload_id index size
    finally
        (do
          content ←
              or_raise (read_body size size source [])
                (closing_error 400 "request body ended early")
          modify (write_temp (some upload_id) tag content)
          raise_if (not (sha256 content == expected)) (api_error 422 "chunk checksum mismatch")
          commit_chunk tenant upload_id i size (sha256 content) tag content)
        (unlink_temp tag)
