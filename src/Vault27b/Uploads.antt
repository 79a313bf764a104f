-- ===== src/Vault27b/Uploads.antt =====
-- vaultdrop/qwen-3-8-27b-v2/src/vaultdrop/store.py: `create_upload`, `describe_upload` and `put_chunk`. The
-- values of the JSON body, the bytes that the connection still holds, random ids and the clock are
-- arguments; `sha256` is hashlib's. A chunk is put in one step.
pub mod Stored
use qwen_3_8_evals.Prelude.{
  ℕ, zero, suc, ◌+◌, ◌-◌, ◌*◌, min, String, Bool, true, false, not, ◌&&◌, ◌||◌, Option, none, some,
  List, [], ◌∷◌, ◌++◌, map, length, take, drop, leb, ltb, ◌==◌, if◌then◌else◌, find, select, delete,
  any, sort,
}
use qwen_3_8_evals.Prelude.Int.{ℤ, pos, negsuc}
use qwen_3_8_evals.Json.{Json, string_if, int_of}
use qwen_3_8_evals.Text.{codes}
use qwen_3_8_evals.Effect.{
  pure, gets, lift, or_raise, raise, ◌>>=◌, ◌>>◌, raise_if, fault_if, modify, Outcome, err, ok,
}
use qwen_3_8_evals.Vault27b.Types.{
  UploadState, opened, is_finalized, Upload, Chunk, ChunkFile, Store, ApiError, api_error, Action,
  upload_at, chunk_at, file_at,
}
use qwen_3_8_evals.Vault27b.Claims.{owned, expected_indices, valid_sha256_hex, spells}

abbrev pub max_chunk_size : ℕ
max_chunk_size = 33554432

abbrev pub max_artifact_size : ℕ
max_artifact_size = 10737418240

abbrev pub stream_buf : ℕ
stream_buf = 1048576

-- `not isinstance(name, str) or not name`
abbrev pub is_named : String → Bool
is_named s = not (length (codes s) == 0)

abbrev pub size_up_to : ℕ → Option ℤ → Option ℕ
size_up_to limit none = none
size_up_to limit (some (negsuc _)) = none
size_up_to limit (some (pos n)) = if ltb limit n then none else some n

abbrev pub positive : Option ℕ → Option ℕ
positive none = none
positive (some zero) = none
positive (some (suc n)) = some (suc n)

unfoldable pub create_upload : String → Json → Json → Json → ℕ → ℕ → Action ℕ
create_upload tenant name total_size chunk_size upload_id now = do
  n ← or_raise (string_if is_named name) (api_error 422 "name must be a non-empty string")
  total ←
      or_raise (size_up_to max_artifact_size (int_of total_size))
        (api_error 422 "total_size out of range")
  chunk ←
      or_raise (positive (size_up_to max_chunk_size (int_of chunk_size)))
        (api_error 422 "chunk_size out of range")
  taken ← gets (λ s. any (upload_at upload_id) s.uploads)
  fault_if taken "UNIQUE constraint failed: uploads.upload_id"
  modify λ s. record s {
    uploads =
        record {
          upload_id = upload_id;
          tenant_id = tenant;
          name = n;
          total_size = total;
          chunk_size = chunk;
          state = opened;
          created_at = now;
        }
        ∷ s.uploads;
  }
  pure upload_id

pub record Description : Type 0 where
  pub upload_id : ℕ
  pub received : List ℕ
  pub state : UploadState

unfoldable pub get_upload : String → ℕ → Action Upload
get_upload tenant upload_id = do
  row ← gets (λ s. find (owned tenant upload_id) s.uploads)
  or_raise row (api_error 404 "not found")

unfoldable pub describe_upload : String → ℕ → Action Description
unfolding get_upload
describe_upload tenant upload_id = do
  up ← get_upload tenant upload_id
  chunks ← gets (λ s. select (λ c. c.upload_id == upload_id) s.chunks)
  pure (record {
    upload_id = upload_id;
    received = sort leb (map (λ c. c.index) chunks);
    state = up.state;
  })

-- How the loop over the body ends.
pub data Received : Type 0 where
  oversize misfit : Received
  received : List ℕ → Received

-- The `while remaining > 0` loop; the fuel is the number of rounds allowed.
unfoldable pub receive : ℕ → ℕ → ℕ → List ℕ → List ℕ → Received
receive zero expected remaining source out = received out
receive (suc fuel) expected remaining source out =
    let b = take (min stream_buf remaining) source in
    let rest =
      receive fuel expected (remaining - length b) (drop (min stream_buf remaining) source)
        (out ++ b) in
    if remaining == 0 || length b == 0
    then received out
    else if ltb max_chunk_size (length out + length b)
    then oversize
    else if ltb expected (length out + length b)
    then misfit
    else rest

unfoldable pub check_received : ℕ → Received → Outcome ApiError (List ℕ)
check_received expected oversize = err (api_error 413 "chunk exceeds the maximum")
check_received expected misfit = err (api_error 422 "chunk size != expected")
check_received expected (received content) =
    if length content == expected then ok content else err (api_error 422 "chunk size != expected")

-- The checks before the body is read; the size that the chunk must have, and the declared text.
unfoldable pub check_chunk : Upload → ℕ → Option (List ℕ) → Outcome ApiError (ℕ × List ℕ)
unfolding valid_sha256_hex
check_chunk up index declared =
    if is_finalized up.state
    then err (api_error 409 "upload finalized")
    else if leb (expected_indices up.total_size up.chunk_size) index
    then err (api_error 422 "chunk index out of range")
    else elim declared [
      | none ↦ err (api_error 422 "bad X-Chunk-SHA256")
      | some text ↦
          if valid_sha256_hex text
          then ok (min up.chunk_size (up.total_size - index * up.chunk_size), text)
          else err (api_error 422 "bad X-Chunk-SHA256")
    ]

abbrev pub replace_file : ChunkFile → List ChunkFile → List ChunkFile
replace_file f files = f ∷ delete (file_at f.upload_id f.index) files

-- `atomic_place` and the INSERT.
unfoldable pub place_chunk : Chunk → List ℕ → Store → Store
place_chunk c content s = record s {
  chunk_files =
      replace_file (record { upload_id = c.upload_id; index = c.index; content = content })
        s.chunk_files;
  chunks = c ∷ s.chunks;
}

-- Under the lock of the index: a replay, a conflict, or a new chunk.
unfoldable pub settle_chunk : Option Chunk → Chunk → List ℕ → Action (Unit {0})
unfolding place_chunk
settle_chunk none c content = modify (place_chunk c content)
settle_chunk (some row) c content =
    if c.content_hash == row.content_hash
    then pure tt
    else raise (api_error 409 "conflicting chunk")

module _ (sha256 : List ℕ → ℕ) where
  unfoldable pub put_chunk : String → ℕ → ℕ → List ℕ → Option (List ℕ) → ℕ → Action (Unit {0})
  unfolding get_upload check_chunk receive check_received settle_chunk
  put_chunk tenant upload_id index source declared content_length = do
    up ← get_upload tenant upload_id
    (expected, text) ← lift (check_chunk up index declared)
    content ←
        lift (check_received expected (receive content_length expected content_length source []))
    raise_if (not (spells text (sha256 content))) (api_error 422 "chunk sha256 mismatch")
    row ← gets (λ s. find (chunk_at upload_id index) s.chunks)
    settle_chunk row
        (record {
          upload_id = upload_id;
          index = index;
          content_hash = sha256 content;
          size = length content;
        })
        content
