-- ===== src/VaultQwen/Uploads.antt =====
-- vaultdrop/qwen-v3/src/uploads.py: `start_upload`, `get_upload` and `store_chunk`. The values of the
-- JSON body, the bytes that the connection still holds, random ids and tags, and the clock are
-- arguments; `sha256` is hashlib's.
pub mod Body
pub mod Stored
use qwen_3_8_evals.Prelude.{
  ℕ, zero, suc, ◌+◌, ◌-◌, min, String, Bool, true, false, not, ◌&&◌, ◌||◌, Option, none, some, List,
  [], ◌∷◌, ◌++◌, map, length, take, drop, leb, ltb, ◌==◌, if◌then◌else◌, str_eq, find, select,
  delete, any, sort,
}
use qwen_3_8_evals.Prelude.Int.{ℤ, pos, negsuc}
use qwen_3_8_evals.Json.{Json, string_if, int_of}
use qwen_3_8_evals.Text.{codes}
use qwen_3_8_evals.Effect.{pure, gets, or_raise, ◌>>=◌, ◌>>◌, raise_if, fault_if, modify, err, ok}
use qwen_3_8_evals.VaultQwen.Types.{
  UploadState, opened, is_finalized, Upload, Chunk, ChunkFile, TempFile, Store, Raised,
  upload_error, Action,
}
use qwen_3_8_evals.VaultQwen.Claims.{upload_at, owned, file_at, ceil_chunks, natural, spells}

abbrev pub max_name_len : ℕ
max_name_len = 255

abbrev pub max_artifact_size : ℕ
max_artifact_size = 10737418240

abbrev pub max_chunk_size : ℕ
max_chunk_size = 33554432

abbrev pub io_block : ℕ
io_block = 1048576

-- `1 <= len(name) <= config.MAX_NAME_LEN`
abbrev pub name_fits : String → Bool
name_fits s = leb 1 (length (codes s)) && leb (length (codes s)) max_name_len

-- `not isinstance(chunk_size, int) or isinstance(chunk_size, bool) or chunk_size < 1`
abbrev pub positive : Option ℤ → Option ℕ
positive none = none
positive (some (pos zero)) = none
positive (some (pos (suc n))) = some (suc n)
positive (some (negsuc _)) = none

unfoldable pub start_upload : String → Json → Json → Json → ℕ → ℕ → Action ℕ
start_upload tenant name total_size chunk_size upload_id now = do
  n ←
      or_raise (string_if name_fits name)
        (upload_error 400 "name must be a string of 1..255 chars" 0)
  total ←
      or_raise (natural (int_of total_size))
        (upload_error 400 "total_size must be a non-negative integer" 0)
  raise_if (ltb max_artifact_size total) (upload_error 413 "total_size exceeds max artifact size" 0)
  chunk ←
      or_raise (positive (int_of chunk_size))
        (upload_error 400 "chunk_size must be a positive integer" 0)
  raise_if (ltb max_chunk_size chunk) (upload_error 400 "chunk_size exceeds max chunk size" 0)
  taken ← gets (λ s. any (upload_at upload_id) s.uploads)
  fault_if taken "UNIQUE constraint failed: uploads.id"
  modify λ s. record s {
    uploads =
        record {
          id = upload_id;
          tenant_id = tenant;
          name = n;
          total_size = total;
          chunk_size = chunk;
          state = opened;
          artifact_id = none;
          created_at = now;
          finalized_at = none;
        }
        ∷ s.uploads;
  }
  pure upload_id

pub record Status : Type 0 where
  pub upload_id : ℕ
  pub received : List ℕ
  pub state : UploadState

abbrev pub received_of : ℕ → List Chunk → List ℕ
received_of upload_id chunks =
    sort leb (map (λ c. c.chunk_index) (select (λ c. c.upload_id == upload_id) chunks))

-- `None` for an id that the tenant does not own.
unfoldable pub get_upload : String → ℕ → Store → Option Status
get_upload tenant upload_id s = elim (find (owned tenant upload_id) s.uploads) [
  | none ↦ none
  | some u ↦
      some (record { upload_id = u.id; received = received_of upload_id s.chunks; state = u.state })
]

unfoldable pub read_upload : String → ℕ → Action Upload
read_upload tenant upload_id = do
  row ← gets (λ s. find (owned tenant upload_id) s.uploads)
  or_raise row (upload_error 404 "not found" 0)

-- How the loop over the body ends: `size > limit`, or with what was written.
pub data Received : Type 0 where
  oversize : ℕ → Received
  received : List ℕ → Received

-- The `while remaining > 0` loop; the fuel is the number of rounds allowed.
unfoldable pub receive : ℕ → ℕ → ℕ → List ℕ → List ℕ → Received
receive zero limit remaining source out = received out
receive (suc fuel) limit remaining source out =
    let n = min io_block remaining in
    let block = take n source in
    let rest = receive fuel limit (remaining - length block) (drop n source) (out ++ block) in
    if remaining == 0 || length block == 0
    then received out
    else if ltb limit (length out + length block)
    then oversize (length out + length block)
    else rest

abbrev pub or_oversize : Received → Action (List ℕ)
or_oversize (oversize size) s = (err (upload_error 413 "chunk exceeds size limit" size), s)
or_oversize (received content) s = (ok content, s)

unfoldable pub write_temp : ℕ → ℕ → List ℕ → Store → Store
write_temp upload_id tag content s = record s {
  temps = record { upload_id = upload_id; tag = tag; content = content } ∷ s.temps;
}

-- `_unlink_quiet`
unfoldable pub unlink_temp : ℕ → Store → Store
unlink_temp tag s = record s { temps = delete (λ t. t.tag == tag) s.temps }

-- `_unlink_quiet(tmp_path)` before a raise.
unfoldable pub discard_if : Bool → ℕ → Raised → Action (Unit {0})
unfolding unlink_temp
discard_if true tag e s = (err e, unlink_temp tag s)
discard_if false tag e s = (ok tt, s)

abbrev pub chunk_at : ℕ → ℕ → Chunk → Bool
chunk_at upload_id index c = c.upload_id == upload_id && c.chunk_index == index

abbrev pub new_unless : Bool → Chunk → List Chunk → List Chunk
new_unless true c chunks = chunks
new_unless false c chunks = c ∷ chunks

-- INSERT OR IGNORE INTO upload_chunks
unfoldable pub insert_chunk : Chunk → Store → Store
insert_chunk c s = record s {
  chunks = new_unless (any (chunk_at c.upload_id c.chunk_index) s.chunks) c s.chunks;
}

abbrev pub file_unless : Bool → ChunkFile → List ChunkFile → List ChunkFile
file_unless true f files = files
file_unless false f files = f ∷ files

-- os.link(tmp_path, dst), where FileExistsError passes
unfoldable pub link_chunk : ChunkFile → Store → Store
link_chunk f s = record s {
  chunk_files = file_unless (any (file_at f.upload_id f.index) s.chunk_files) f s.chunk_files;
}

abbrev pub sha_of : Option Chunk → Option ℕ
sha_of none = none
sha_of (some c) = some c.sha256

abbrev pub is_value : Option ℕ → ℕ → Bool
is_value none v = false
is_value (some w) v = w == v

-- The transaction, then the comparison and the link.
unfoldable pub place_chunk : ℕ → ℕ → ℕ → List ℕ → ℕ → ℕ → Action (Unit {0})
unfolding insert_chunk link_chunk discard_if unlink_temp
place_chunk upload_id index computed content content_length tag = do
  modify (
      insert_chunk (record {
        upload_id = upload_id;
        chunk_index = index;
        size = length content;
        sha256 = computed;
      }))
  stored ← gets (λ s. sha_of (find (chunk_at upload_id index) s.chunks))
  discard_if (not (is_value stored computed)) tag
      (upload_error 409 "conflicting chunk already stored at this index" content_length)
  modify (link_chunk (record { upload_id = upload_id; index = index; content = content }))
  modify (unlink_temp tag)

-- The checks before the body is read, with the text of X-Chunk-SHA256.
unfoldable pub check_chunk : Upload → ℕ → Option (List ℕ) → Action (List ℕ)
unfolding ceil_chunks
check_chunk row index declared = do
  raise_if (is_finalized row.state) (upload_error 409 "upload already finalized" 0)
  raise_if (leb (ceil_chunks row.total_size row.chunk_size) index)
      (upload_error 400 "chunk index out of range" 0)
  text ← or_raise declared (upload_error 400 "missing X-Chunk-SHA256 header" 0)
  raise_if (not (length text == 64)) (upload_error 400 "X-Chunk-SHA256 must be 64 hex chars" 0)
  pure text

module _ (sha256 : List ℕ → ℕ) where
  unfoldable pub store_chunk : String → ℕ → ℕ → List ℕ → Option (List ℕ) → ℕ → ℕ → Action (Unit {0})
  unfolding read_upload check_chunk receive write_temp place_chunk
  store_chunk tenant upload_id index source declared content_length tag = do
    row ← read_upload tenant upload_id
    text ← check_chunk row index declared
    content ←
        or_oversize
          (receive content_length (min row.chunk_size max_chunk_size) content_length source [])
    modify (write_temp upload_id tag content)
    discard_if (not (spells text (sha256 content))) tag
        (upload_error 400 "chunk digest mismatch" content_length)
    place_chunk upload_id index (sha256 content) content content_length tag
