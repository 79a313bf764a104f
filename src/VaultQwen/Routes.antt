-- ===== src/VaultQwen/Routes.antt =====
-- vaultdrop/qwen-v3/src/httpd.py: `_dispatch` and the handlers of `Handler`.
pub mod Separation
use qwen_3_8_evals.Prelude.{
  ℕ, String, Bool, true, false, ◌&&◌, ◌||◌, Option, none, some, List, [], ◌∷◌, take, leb,
  if◌then◌else◌, str_eq,
}
use qwen_3_8_evals.Prelude.Int.{ℤ, pos, negsuc}
use qwen_3_8_evals.Json.{Json, Fields, get, int_of, fields_of}
use qwen_3_8_evals.Text.{codes, is_word, split_parts, parse_id}
use qwen_3_8_evals.VaultQwen.Types.{Store}
use qwen_3_8_evals.VaultQwen.Workers.{Request, finalize, delete_artifact, gc}
use qwen_3_8_evals.VaultQwen.Uploads.{start_upload, get_upload, store_chunk}
use qwen_3_8_evals.VaultQwen.Artifacts.{list_artifacts, get_artifact, validate_pass, list_blobs}
use qwen_3_8_evals.VaultQwen.Http.{
  Registry, Identity, tenant, admin, invalid, authenticate, HttpRequest, Body, healthy, error,
  created, stored, status, artifacts, download, blobs, validation, Dispatched, replied, begun,
  refuse, answer, created_of, stored_of, Index, not_index, bad_index, index, index_of, declared_of,
  Env,
}

abbrev pub max_json_body : ℕ
max_json_body = 1048576

abbrev pub object_of : Option Json → Option Fields
object_of none = none
object_of (some v) = fields_of v

abbrev pub read_object : (List ℕ → Option Json) → Option ℤ → List ℕ → Option Fields
read_object loads none body = none
read_object loads (some (negsuc _)) body = none
read_object loads (some (pos n)) body =
    if leb n max_json_body then object_of (loads (take n body)) else none

abbrev pub header_int : (List ℕ → Option ℤ) → Option String → Option ℤ
header_int parse none = none
header_int parse (some raw) = parse (codes raw)

abbrev pub is_admin_path : List (List ℕ) → Bool
is_admin_path [] = false
is_admin_path (a ∷ _) = is_word a "admin"

abbrev pub is_health : List (List ℕ) → Bool
is_health (a ∷ []) = is_word a "health"
is_health [] = false
is_health (_ ∷ _ ∷ _) = false

abbrev pub segments : HttpRequest → List (List ℕ)
segments r = split_parts [] (codes r.path)

module _ (env : Env) where
  -- `_read_json_body`, and the test that the document is a dict.
  unfoldable pub read_json_body : HttpRequest → Option Fields
  read_json_body r = read_object env.loads (header_int env.parse_int r.content_length) r.body

  unfoldable pub post_uploads : String → Option Fields → Store → Dispatched × Store
  post_uploads t none s = refuse 400 "invalid JSON body" s
  post_uploads t (some doc) s =
      let made =
        start_upload t (get "name" doc) (get "total_size" doc) (get "chunk_size" doc) env.new_id
          env.now s in
      (answer (created_of made.0), made.1)

  -- `_put_chunk` after its header checks.
  unfoldable pub put_at : String → Option ℕ → Index → ℕ → HttpRequest → Store → Dispatched × Store
  put_at t none i n r s = refuse 404 "not found" s
  put_at t (some u) not_index n r s = refuse 404 "not found" s
  put_at t (some u) bad_index n r s = refuse 500 "internal error" s
  put_at t (some u) (index i) n r s =
      let made = store_chunk env.sha256 t u i r.body r.checksum n env.tag s in
      (answer (stored_of i made.0), made.1)

  unfoldable pub put_length :
      String → Option ℕ → Index → Option ℤ → HttpRequest → Store → Dispatched × Store
  unfolding put_at
  put_length t u i none r s = refuse 400 "bad Content-Length" s
  put_length t u i (some (negsuc _)) r s = refuse 400 "bad Content-Length" s
  put_length t u i (some (pos n)) r s = put_at t u i n r s

  unfoldable pub put_chunk : String → List ℕ → List ℕ → HttpRequest → Store → Dispatched × Store
  unfolding put_length
  put_chunk t u i r s = elim r.content_length [
    | none ↦ refuse 400 "Content-Length required" s
    | some raw ↦ put_length t (parse_id u) (index_of i) (env.parse_int (codes raw)) r s
  ]

  unfoldable pub get_status : String → Option ℕ → Store → Dispatched × Store
  get_status t none s = refuse 404 "not found" s
  get_status t (some u) s = elim (get_upload t u s) [
    | none ↦ refuse 404 "not found" s
    | some info ↦ (replied 200 (status info), s)
  ]

  unfoldable pub post_finalize : String → Option ℕ → Option Fields → Store → Dispatched × Store
  post_finalize t none doc s = refuse 404 "not found" s
  post_finalize t (some u) none s = refuse 400 "invalid JSON body" s
  post_finalize t (some u) (some doc) s = (
    begun (
        finalize t u (declared_of (get "sha256" doc)) (int_of (get "size" doc)) env.new_id env.now),
    s,
  )

  unfoldable pub get_content : String → Option ℕ → Store → Dispatched × Store
  get_content t none s = refuse 404 "not found" s
  get_content t (some a) s = elim (get_artifact t a s) [
    | none ↦ refuse 404 "not found" s
    | some d ↦ (replied 200 (download d), s)
  ]

  -- An id that is no id names no row.
  unfoldable pub delete_one : String → Option ℕ → Store → Dispatched × Store
  delete_one t none s = refuse 404 "not found" s
  delete_one t (some a) s = (begun (delete_artifact t a), s)

  unfoldable pub run_admin : String → List (List ℕ) → Store → Dispatched × Store
  run_admin method (_ ∷ a ∷ []) s =
      if str_eq method "POST" && is_word a "gc"
      then (begun (gc env.now), s)
      else if str_eq method "GET" && is_word a "blobs"
      then (replied 200 (blobs (list_blobs s)), s)
      else if str_eq method "GET" && is_word a "validate"
      then (replied 200 (validation (validate_pass env.sha256 s).0), (validate_pass env.sha256 s).1)
      else refuse 404 "not found" s
  run_admin method [] s = refuse 404 "not found" s
  run_admin method (_ ∷ []) s = refuse 404 "not found" s
  run_admin method (_ ∷ _ ∷ _ ∷ _) s = refuse 404 "not found" s

  unfoldable pub tenant_route : String → List (List ℕ) → HttpRequest → Store → Dispatched × Store
  unfolding post_uploads put_chunk get_status post_finalize get_content delete_one read_json_body
  tenant_route t [] r s = refuse 404 "not found" s
  tenant_route t (a ∷ []) r s =
      if str_eq r.method "POST" && is_word a "uploads"
      then post_uploads t (read_json_body r) s
      else if str_eq r.method "GET" && is_word a "artifacts"
      then (replied 200 (artifacts (list_artifacts t s)), s)
      else refuse 404 "not found" s
  tenant_route t (a ∷ b ∷ []) r s =
      if str_eq r.method "GET" && is_word a "uploads"
      then get_status t (parse_id b) s
      else if str_eq r.method "GET" && is_word a "artifacts"
      then get_content t (parse_id b) s
      else if str_eq r.method "DELETE" && is_word a "artifacts"
      then delete_one t (parse_id b) s
      else refuse 404 "not found" s
  tenant_route t (a ∷ b ∷ c ∷ []) r s =
      if str_eq r.method "POST" && is_word a "uploads" && is_word c "finalize"
      then post_finalize t (parse_id b) (read_json_body r) s
      else refuse 404 "not found" s
  tenant_route t (a ∷ b ∷ c ∷ d ∷ []) r s =
      if str_eq r.method "PUT" && is_word a "uploads" && is_word c "chunks"
      then put_chunk t b d r s
      else refuse 404 "not found" s
  tenant_route t (_ ∷ _ ∷ _ ∷ _ ∷ _ ∷ _) r s = refuse 404 "not found" s

  unfoldable pub as_identity : Identity → List (List ℕ) → HttpRequest → Store → Dispatched × Store
  unfolding run_admin tenant_route
  as_identity invalid segs r s = refuse 401 "unauthorized" s
  as_identity (tenant t) segs r s =
      if is_admin_path segs then refuse 404 "not found" s else tenant_route t segs r s
  as_identity admin segs r s =
      if is_admin_path segs then run_admin r.method segs s else refuse 401 "unauthorized" s

  unfoldable pub dispatch : Registry → HttpRequest → Store → Dispatched × Store
  unfolding as_identity authenticate
  dispatch registry r s =
      if is_health (segments r)
      then (replied 200 healthy, s)
      else as_identity (authenticate registry r.bearer) (segments r) r s
