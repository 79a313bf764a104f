-- ===== src/VaultSol/Http/Dispatch.antt =====
-- `Handler.dispatch` and `Handler._handle` of vaultdrop.py: the routes, their checks in the order in
-- which they are made, and the answer to an error.
use qwen_3_8_evals.Prelude.{
  ℕ, String, Bool, true, false, ◌&&◌, Option, none, some, List, [], ◌∷◌, length, leb, ltb,
  if◌then◌else◌, str_eq,
}
use qwen_3_8_evals.Prelude.Int.{ℤ, pos, negsuc}
use qwen_3_8_evals.Json.{Json, get, string_if, int_of}
use qwen_3_8_evals.VaultSol.Types.{Blob, Artifact, Store}
use qwen_3_8_evals.VaultSol.Action.{Result, Action, api_error, closing_error}
use qwen_3_8_evals.Effect.{ok, err, fault, pure, raise, raise_if, gets, lift, or_raise, ◌>>=◌, ◌>>◌}
use qwen_3_8_evals.VaultSol.Uploads.{create_upload, Status, upload_status, put_chunk}
use qwen_3_8_evals.VaultSol.Finalize.{finalize}
use qwen_3_8_evals.VaultSol.Artifacts.{
  open_verified_artifact, Listing, list_artifacts, delete_artifact,
}
use qwen_3_8_evals.VaultSol.Gc.{Collected, gc, list_blobs, Validation, validate}
use qwen_3_8_evals.VaultSol.Auth.{Auth, check_tenant, check_admin, non_empty}
use qwen_3_8_evals.VaultSol.Http.{
  parse_hash, Request, max_chunk_size, max_artifact_size, within, is_present, body_length,
  json_body,
}
use qwen_3_8_evals.Text.{parse_id, codes, is_word, split_parts}

-- What an answer's body is made of.
pub data Body : Type 0 where
  healthy : Body
  created : ℕ → Body
  status : Status → Body
  received : ℤ → Body
  artifact : ℕ → Body
  artifacts : List Listing → Body
  content : Artifact → List ℕ → Body
  deleted : Body
  collected : Collected → Body
  blobs : List Blob → Body
  validation : Validation → Body
  error : String → Body

pub record Response : Type 0 where
  pub status : ℕ
  pub body : Body
  pub close : Bool

abbrev pub respond : ℕ → Body → Response
respond code body = record { status = code; body = body; close = false }

-- What the handler takes from outside the program, for one request.
pub record Env : Type 0 where
  pub sha256 : List ℕ → ℕ
  pub parse_int : List ℕ → Option ℤ
  pub loads : List ℕ → Option Json
  pub new_id : ℕ
  -- whether the directory of a blob can be made and synced
  pub directory_ready : Bool
  pub tag : ℕ
  pub trash_tag : ℕ → ℕ
  pub replaced : ℕ → Bool
  pub locked : Bool
  pub now : ℕ

-- `path.split("/")` without its empty parts: the shapes that `dispatch` tells apart.
pub data Parts : Type 0 where
  two : List ℕ → List ℕ → Parts
  three : List ℕ → List ℕ → List ℕ → Parts
  four : List ℕ → List ℕ → List ℕ → List ℕ → Parts
  other : Parts

abbrev pub shape : List (List ℕ) → Parts
shape (a ∷ b ∷ []) = two a b
shape (a ∷ b ∷ c ∷ []) = three a b c
shape (a ∷ b ∷ c ∷ d ∷ []) = four a b c d
shape _ = other

-- The routes that have an id in their path; a part that is no id is no route.
pub data Route : Type 0 where
  upload : ℕ → Route
  chunk : ℕ → List ℕ → Route
  finish : ℕ → Route
  one_artifact : ℕ → Route
  no_route : Route

abbrev pub with_id : Option ℕ → (ℕ → Route) → Route
with_id none f = no_route
with_id (some i) f = f i

unfoldable pub route : Parts → Route
route (two a b) =
    if is_word a "uploads"
    then with_id (parse_id b) upload
    else if is_word a "artifacts"
    then with_id (parse_id b) one_artifact
    else no_route
route (three a b c) =
    if is_word a "uploads" && is_word c "finalize" then with_id (parse_id b) finish else no_route
route (four a b c d) =
    if is_word a "uploads" && is_word c "chunks"
    then with_id (parse_id b) (λ i. chunk i d)
    else no_route
route other = no_route

abbrev pub not_found : Action Response
not_found = raise (api_error 404 "not found")

abbrev pub name_ok : String → Bool
name_ok name = non_empty name && leb (length (codes name)) 1024

-- `1 <= chunk <= MAX_CHUNK_SIZE`
abbrev pub chunk_size_of : Option ℤ → Option ℕ
chunk_size_of none = none
chunk_size_of (some (pos n)) = if ltb 0 n && leb n max_chunk_size then some n else none
chunk_size_of (some (negsuc _)) = none

abbrev pub size_of : Option ℤ → Option ℕ
size_of none = none
size_of (some n) = within max_artifact_size n

abbrev pub hash_of : Option String → Option ℕ
hash_of none = none
hash_of (some text) = parse_hash (codes text)

module _ (env : Env) (auth : Auth) where
  abbrev pub tenant_of_request : Request → Action String
  tenant_of_request r = lift (check_tenant auth r.bearer)

  unfoldable pub post_uploads : Request → Action Response
  post_uploads r = do
    tenant ← tenant_of_request r
    body ← lift (json_body env.parse_int env.loads r)
    name ←
        or_raise (string_if name_ok (get "name" body))
          (api_error 422 "name must be 1-1024 characters")
    total ←
        or_raise (size_of (int_of (get "total_size" body)))
          (api_error 422 "total_size must be between 0 and 10 GiB")
    size ←
        or_raise (chunk_size_of (int_of (get "chunk_size" body)))
          (api_error 422 "chunk_size must be between 1 byte and 32 MiB")
    upload_id ← create_upload tenant name total size env.new_id env.now
    pure (respond 201 (created upload_id))

  unfoldable pub put_chunks : Request → ℕ → List ℕ → Action Response
  put_chunks r upload_id last = do
    tenant ← tenant_of_request r
    raise_if (is_present r.transfer_encoding)
        (closing_error 400 "Transfer-Encoding is not supported")
    index ← or_raise (env.parse_int last) (closing_error 404 "not found")
    size ← lift (body_length env.parse_int r max_chunk_size "chunk exceeds 32 MiB")
    expected ← or_raise (parse_hash (codes r.checksum)) (closing_error 400 "invalid X-Chunk-SHA256")
    put_chunk env.sha256 tenant upload_id index expected r.body size env.tag
    pure (respond 200 (received index))

  unfoldable pub post_finalize : Request → ℕ → Action Response
  post_finalize r upload_id = do
    tenant ← tenant_of_request r
    body ← lift (json_body env.parse_int env.loads r)
    digest ←
        or_raise (hash_of (string_if (λ _. true) (get "sha256" body)))
          (api_error 422 "sha256 must be hexadecimal")
    size ← or_raise (size_of (int_of (get "size" body))) (api_error 422 "invalid size")
    artifact_id ←
        finalize env.sha256 env.directory_ready tenant upload_id digest size env.new_id env.tag
          env.now
    pure (respond 200 (artifact artifact_id))

  unfoldable pub on_upload : Request → ℕ → Action Response
  on_upload r upload_id = do
    tenant ← tenant_of_request r
    (if str_eq r.method "GET"
        then (do found ← upload_status tenant upload_id; pure (respond 200 (status found)))
        else not_found)

  unfoldable pub on_artifact : Request → ℕ → Action Response
  on_artifact r artifact_id = do
    tenant ← tenant_of_request r
    (if str_eq r.method "GET"
        then (do
          opened ← open_verified_artifact env.sha256 tenant artifact_id
          pure (respond 200 (content opened.0 opened.1)))
        else if str_eq r.method "DELETE"
        then (do delete_artifact tenant artifact_id; pure (respond 200 deleted))
        else not_found)

  unfoldable pub get_artifacts : Request → Action Response
  get_artifacts r = do
    tenant ← tenant_of_request r
    rows ← gets (list_artifacts tenant)
    pure (respond 200 (artifacts rows))

  -- The three routes of the admin, each behind the same check.
  unfoldable pub as_admin : Request → Action Response → Action Response
  as_admin r m = do lift (check_admin auth r.bearer); m

  unfoldable pub admin_gc : Action Response
  admin_gc = do report ← gc env.trash_tag; pure (respond 200 (collected report))

  unfoldable pub admin_blobs : Action Response
  admin_blobs = do rows ← gets list_blobs; pure (respond 200 (blobs rows))

  unfoldable pub admin_validate : Action Response
  admin_validate = do
    report ← validate env.sha256 env.replaced env.locked
    pure (respond 200 (validation report))

  abbrev pub is_call : Request → String → String → Bool
  is_call r method path = str_eq r.method method && str_eq r.path path

  -- The routes without an id.
  unfoldable pub plain_route : Request → Action Response
  plain_route r =
      if is_call r "GET" "/artifacts"
      then get_artifacts r
      else if is_call r "POST" "/admin/gc"
      then as_admin r admin_gc
      else if is_call r "GET" "/admin/blobs"
      then as_admin r admin_blobs
      else if is_call r "GET" "/admin/validate"
      then as_admin r admin_validate
      else not_found

  unfoldable pub on_route : Route → Request → Action Response
  on_route (upload i) r = on_upload r i
  on_route (chunk i last) r = if str_eq r.method "PUT" then put_chunks r i last else not_found
  on_route (finish i) r = if str_eq r.method "POST" then post_finalize r i else not_found
  on_route (one_artifact i) r = on_artifact r i
  on_route no_route r = plain_route r

  unfoldable pub dispatch : Request → Action Response
  unfolding route
  dispatch r =
      if is_call r "GET" "/health"
      then pure (respond 200 healthy)
      else if is_call r "POST" "/uploads"
      then post_uploads r
      else on_route (route (shape (split_parts [] (codes r.path)))) r

  abbrev pub answer : Result Response → Response
  answer (ok response) = response
  answer (err e) = record { status = e.status; body = error e.message; close = e.close }
  answer (fault m) = respond 500 (error "internal server error")

  -- `_handle`: the answer, and the store that the request leaves.
  unfoldable pub handle : Request → Store → Response × Store
  handle r s = (answer (dispatch r s).0, (dispatch r s).1)
