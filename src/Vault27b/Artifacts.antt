-- ===== src/Vault27b/Artifacts.antt =====
-- vaultdrop/qwen-3-8-27b-v2/src/vaultdrop: `get_artifact`, `list_artifacts`, `list_blobs` and
-- `validate_pass` of store.py, and `_download` of httpd.py.
pub mod Served
use Prim.Native.Nat.{Ordering, compare}
use qwen_3_8_evals.Prelude.{
  ℕ, suc, String, Bool, true, false, not, ◌&&◌, ◌||◌, Option, none, some, List, [], ◌∷◌, map,
  length, leb, ◌==◌, if◌then◌else◌, str_eq, find, select, update, sort, lookup,
}
use qwen_3_8_evals.Effect.{Outcome, ok, err, pure, raise, gets, modify, or_raise, ◌>>=◌, ◌>>◌}
use qwen_3_8_evals.Vault27b.Types.{
  Artifact, Blob, BlobState, active, Store, ApiError, api_error, Action, is_active, is_deleted,
  blob_at,
}
use qwen_3_8_evals.Vault27b.Transactions.{artifact_owned}

unfoldable pub get_artifact : String → ℕ → Store → Outcome ApiError Artifact
get_artifact tenant artifact_id s = elim (find (artifact_owned tenant artifact_id) s.artifacts) [
  | none ↦ err (api_error 404 "not found")
  | some a ↦ ok a
]

-- ORDER BY created_at, artifact_id
abbrev pub is_before : Artifact → Artifact → Bool
is_before a b = elim (compare a.created_at b.created_at) [
  | Ordering.lt ↦ true
  | Ordering.gt ↦ false
  | Ordering.eq ↦ leb a.artifact_id b.artifact_id
]

unfoldable pub list_artifacts : String → Store → List Artifact
list_artifacts tenant s = sort is_before (select (λ a. str_eq a.tenant_id tenant) s.artifacts)

-- WHERE state != 'deleted' ORDER BY content_hash
unfoldable pub list_blobs : Store → List Blob
list_blobs s =
    sort (λ a b. leb a.content_hash b.content_hash) (select (λ b. not (is_deleted b.state)) s.blobs)

abbrev pub is_served : Option Blob → Bool
is_served none = false
is_served (some b) = is_active b.state

abbrev pub sized_content : ℕ → Option (List ℕ) → Outcome ApiError (List ℕ)
sized_content size none = err (api_error 500 "blob bytes unavailable")
sized_content size (some content) =
    if length content == size then ok content else err (api_error 500 "blob size mismatch")

abbrev pub download_row : Artifact → Store → Outcome ApiError (List ℕ)
download_row a s =
    if is_served (find (blob_at a.sha256) s.blobs)
    then sized_content a.size (lookup a.sha256 s.blob_files)
    else err (api_error 500 "blob unavailable")

-- `_download`, for a connection that takes all of the bytes.
unfoldable pub download : String → ℕ → Store → Outcome ApiError (List ℕ)
download tenant artifact_id s = elim (find (artifact_owned tenant artifact_id) s.artifacts) [
  | none ↦ err (api_error 404 "not found")
  | some a ↦ download_row a s
]

pub record Validation : Type 0 where
  pub scanned : ℕ
  pub matched : ℕ
  pub mismatched : ℕ

-- UPDATE blobs SET validated=? WHERE content_hash=?
unfoldable pub set_validated : ℕ → Bool → Store → Store
set_validated digest v s = record s {
  blobs = update (blob_at digest) (λ b. record b { validated = v }) s.blobs;
}

module _ (sha256 : List ℕ → ℕ) where
  abbrev pub is_intact : Blob → List ℕ → Bool
  is_intact b content = length content == b.size && sha256 content == b.content_hash

  -- One row that has its file.
  unfoldable pub validate_content : Blob → List ℕ → Validation → Store → Validation × Store
  unfolding set_validated
  validate_content b content v s =
      if is_intact b content
      then (
        record v { matched = suc v.matched },
        (if b.validated then s else set_validated b.content_hash true s),
      )
      else (record v { mismatched = suc v.mismatched }, set_validated b.content_hash false s)

  -- The loop. `streaming_hash_files` turns a missing file into an ApiError, which no clause here catches.
  unfoldable pub validate_rows : List Blob → Validation → Action Validation
  unfolding validate_content
  validate_rows [] v s = (ok v, s)
  validate_rows (b ∷ rest) v s = elim (lookup b.content_hash s.blob_files) [
    | none ↦ (err (api_error 422 "stored chunk missing; re-upload required"), s)
    | some content ↦
        let next = validate_content b content (record v { scanned = suc v.scanned }) s in
        validate_rows rest next.0 next.1
  ]

  unfoldable pub validate_pass : Action Validation
  unfolding validate_rows
  validate_pass s =
      validate_rows (select (λ b. not (is_deleted b.state)) s.blobs)
        (record { scanned = 0; matched = 0; mismatched = 0 }) s
