-- ===== src/Vault27b/Routes.antt =====
-- vaultdrop/qwen-3-8-27b-v2/src/vaultdrop/httpd.py: `_route`. A finalization and a collection are begun,
-- for a thread to go on with; every other request is answered at once.
pub mod Separation
use qwen_3_8_evals.Prelude.{
  ℕ, String, Bool, true, false, ◌&&◌, ◌||◌, Option, none, some, List, [], ◌∷◌, if◌then◌else◌,
  str_eq,
}
use qwen_3_8_evals.Prelude.Int.{ℤ, pos, negsuc}
use qwen_3_8_evals.Json.{Json, Fields, get, fields_of}
use qwen_3_8_evals.Text.{is_word, codes, same_text}
use qwen_3_8_evals.Effect.{Outcome, ok, err, fault}
use qwen_3_8_evals.Vault27b.Types.{Artifact, Blob, Store, ApiError, api_error}
use qwen_3_8_evals.Vault27b.Transactions.{Integrity, delete_artifact}
use qwen_3_8_evals.Vault27b.Threads.{Request}
use qwen_3_8_evals.Vault27b.Uploads.{create_upload, put_chunk, describe_upload, Description}
use qwen_3_8_evals.Vault27b.Artifacts.{
  download, list_artifacts, list_blobs, validate_pass, Validation,
}
use qwen_3_8_evals.Vault27b.Http.{
  Auth, Caller, tenant, admin, check, Route, uploads, chunk, finalization, upload, artifacts,
  artifact, gc, blobs, validate, unknown, route_of, split_slash, HttpRequest, Env, clen,
  read_json_body,
}

pub data Body : Type 0 where
  healthy : Body
  error : String → Body
  created : ℕ → Body
  stored : ℕ → Body
  described : Description → Body
  listed : List Artifact → Body
  content : List ℕ → Body
  removed : ℕ → Body
  blob_rows : List Blob → Body
  validated : Validation → Body

pub data Routed : Type 0 where
  replied : ℕ → Body → Routed
  begun : Request → Routed

abbrev pub refuse : ℕ → String → Store → Routed × Store
refuse code message s = (replied code (error message), s)

-- The answer to a value, to an ApiError, and to any other exception.
abbrev pub answer : {A : Type 0} → (A → Body) → Outcome ApiError A → Routed
answer f (ok a) = replied 200 (f a)
answer f (err e) = replied e.status (error e.message)
answer f (fault _) = replied 500 (error "internal error")

-- `body.get(...)`, which is no method of other values than dicts.
abbrev pub object_body : Outcome ApiError Json → Outcome ApiError Fields
object_body (err e) = err e
object_body (fault m) = fault m
object_body (ok v) = elim (fields_of v) [
  | none ↦ fault "object has no attribute 'get'"
  | some d ↦ ok d
]

module _ (env : Env) where
  unfoldable pub post_uploads : String → Outcome ApiError Fields → Store → Routed × Store
  post_uploads t (err e) s = refuse e.status e.message s
  post_uploads t (fault _) s = refuse 500 "internal error" s
  post_uploads t (ok d) s =
      let made =
        create_upload t (get "name" d) (get "total_size" d) (get "chunk_size" d) env.new_id env.now
          s in
      (answer created made.0, made.1)

  unfoldable pub store_body : String → ℕ → ℕ → ℤ → HttpRequest → Store → Routed × Store
  store_body t u i (negsuc _) r s = refuse 400 "bad content-length" s
  store_body t u i (pos n) r s =
      let made = put_chunk env.sha256 t u i r.body r.checksum n s in
      (answer (λ _. stored i) made.0, made.1)

  unfoldable pub put_body : String → ℕ → Option ℕ → HttpRequest → Store → Routed × Store
  unfolding store_body
  put_body t u none r s = refuse 500 "internal error" s
  put_body t u (some i) r s = store_body t u i (clen env r) r s

  unfoldable pub post_finalize : String → ℕ → Outcome ApiError Fields → Store → Routed × Store
  post_finalize t u (err e) s = refuse e.status e.message s
  post_finalize t u (fault _) s = refuse 500 "internal error" s
  post_finalize t u (ok d) s =
      (begun (Request.finalize t u (get "sha256" d) (get "size" d) env.new_id env.now), s)

  abbrev pub removal : ℕ → Outcome Integrity Bool → Routed
  removal i (ok true) = replied 200 (removed i)
  removal i (ok false) = replied 404 (error "not found")
  removal i (err _) = replied 500 (error "internal error")
  removal i (fault _) = replied 500 (error "internal error")

  unfoldable pub remove_one : String → ℕ → Store → Routed × Store
  remove_one t i s = let made = delete_artifact t i s in (removal i made.0, made.1)

  -- Whether a method and a route are one of those for tenants.
  unfoldable pub is_tenant_route : String → Route → Bool
  is_tenant_route method uploads = str_eq method "POST"
  is_tenant_route method (chunk _ _) = str_eq method "PUT"
  is_tenant_route method (finalization _) = str_eq method "POST"
  is_tenant_route method (upload _) = str_eq method "GET"
  is_tenant_route method artifacts = str_eq method "GET"
  is_tenant_route method (artifact _) = str_eq method "GET" || str_eq method "DELETE"
  is_tenant_route method gc = false
  is_tenant_route method blobs = false
  is_tenant_route method validate = false
  is_tenant_route method unknown = false

  -- The branches for tenants, for a method that they have.
  unfoldable pub tenant_route : String → Route → HttpRequest → Store → Routed × Store
  unfolding post_uploads put_body post_finalize remove_one
  tenant_route t uploads r s = post_uploads t (object_body (read_json_body env r)) s
  tenant_route t (chunk u i) r s = put_body t u i r s
  tenant_route t (finalization u) r s = post_finalize t u (object_body (read_json_body env r)) s
  tenant_route t (upload u) r s =
      let found = describe_upload t u s in (answer described found.0, found.1)
  tenant_route t artifacts r s = (replied 200 (listed (list_artifacts t s)), s)
  tenant_route t (artifact i) r s =
      if str_eq r.method "GET" then (answer content (download t i s), s) else remove_one t i s
  tenant_route t gc r s = refuse 404 "not found" s
  tenant_route t blobs r s = refuse 404 "not found" s
  tenant_route t validate r s = refuse 404 "not found" s
  tenant_route t unknown r s = refuse 404 "not found" s

  unfoldable pub admin_route : String → Route → Store → Routed × Store
  admin_route method gc s =
      if str_eq method "POST" then (begun Request.gc, s) else refuse 404 "not found" s
  admin_route method blobs s =
      if str_eq method "GET"
      then (replied 200 (blob_rows (list_blobs s)), s)
      else refuse 404 "not found" s
  admin_route method validate s =
      let done = validate_pass env.sha256 s in
      if str_eq method "GET" then (answer validated done.0, done.1) else refuse 404 "not found" s
  admin_route method uploads s = refuse 404 "not found" s
  admin_route method (chunk _ _) s = refuse 404 "not found" s
  admin_route method (finalization _) s = refuse 404 "not found" s
  admin_route method (upload _) s = refuse 404 "not found" s
  admin_route method artifacts s = refuse 404 "not found" s
  admin_route method (artifact _) s = refuse 404 "not found" s
  admin_route method unknown s = refuse 404 "not found" s

  unfoldable pub as_caller : Outcome ApiError Caller → Route → HttpRequest → Store → Routed × Store
  unfolding tenant_route admin_route is_tenant_route
  as_caller (err e) route r s = refuse e.status e.message s
  as_caller (fault _) route r s = refuse 500 "internal error" s
  as_caller (ok (tenant t)) route r s =
      if is_tenant_route r.method route
      then tenant_route t route r s
      else refuse 401 "admin token required" s
  as_caller (ok admin) route r s =
      if is_tenant_route r.method route
      then refuse 401 "tenant token required" s
      else admin_route r.method route s

  unfoldable pub route : Auth → HttpRequest → Store → Routed × Store
  unfolding as_caller check route_of split_slash
  route auth r s =
      if str_eq r.method "GET" && same_text r.path (codes "/health")
      then (replied 200 healthy, s)
      else as_caller (check auth r.authorization) (route_of (split_slash [] r.path)) r s
