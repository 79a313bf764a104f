-- ===== src/VaultSol/Artifacts.antt =====
-- `artifact_row`, `open_verified_artifact`, `list_artifacts` and `delete_artifact` of vaultdrop.py.
pub mod Serving
use qwen_3_8_evals.Prelude.{
  ℕ, ◌-◌, String, Bool, true, false, not, ◌&&◌, ◌||◌, List, map, length, ltb, leb, ◌==◌,
  if◌then◌else◌, str_eq, find, select, update, delete, count, lookup, sort,
}
use qwen_3_8_evals.VaultSol.Types.{Blob, Artifact, Store}
use qwen_3_8_evals.VaultSol.Action.{Action, api_error}
use qwen_3_8_evals.Effect.{ok, err, pure, gets, or_raise, ◌>>=◌, ◌>>◌, raise_if, fault_if, modify}
use qwen_3_8_evals.VaultSol.Finalize.{artifact_owned, blob_at}

unfoldable pub artifact_row : String → ℕ → Action Artifact
artifact_row tenant artifact_id = do
  row ← gets (λ s. find (artifact_owned tenant artifact_id) s.artifacts)
  or_raise row (api_error 404 "artifact not found")

-- UPDATE blobs SET validated=0 WHERE content_hash=?
unfoldable pub mark_invalid : ℕ → Store → Store
mark_invalid digest s = record s {
  blobs = update (blob_at digest) (λ b. record b { validated = false }) s.blobs;
}

unfoldable pub flag_if : Bool → ℕ → Action (Unit {0})
unfolding mark_invalid
flag_if true digest s =
    (err (api_error 500 "artifact failed integrity verification"), mark_invalid digest s)
flag_if false digest s = (ok tt, s)

module _ (sha256 : List ℕ → ℕ) where
  unfoldable pub open_verified_artifact : String → ℕ → Action (Artifact × List ℕ)
  unfolding artifact_row flag_if
  open_verified_artifact tenant artifact_id = do
    first ← artifact_row tenant artifact_id
    row ← artifact_row tenant artifact_id
    file ← gets (λ s. lookup first.sha256 s.blob_files)
    content ← or_raise file (api_error 500 "artifact bytes unavailable")
    flag_if (not (length content == row.size) || not (sha256 content == first.sha256)) first.sha256
    pure (row, content)

pub record Listing : Type 0 where
  pub artifact_id : ℕ
  pub name : String
  pub size : ℕ
  pub sha256 : ℕ

-- ORDER BY created_at, id
abbrev pub before : Artifact → Artifact → Bool
before a b = ltb a.created_at b.created_at || (a.created_at == b.created_at && leb a.id b.id)

abbrev pub listing : Artifact → Listing
listing a = record { artifact_id = a.id; name = a.name; size = a.size; sha256 = a.sha256 }

unfoldable pub list_artifacts : String → Store → List Listing
list_artifacts tenant s =
    map listing (sort before (select (λ a. str_eq a.tenant_id tenant) s.artifacts))

-- WHERE content_hash=? AND refcount>0
abbrev pub counted_at : ℕ → Blob → Bool
counted_at digest b = b.content_hash == digest && ltb 0 b.refcount

abbrev pub decrement : Blob → Blob
decrement b = record b { refcount = b.refcount - 1 }

-- The DELETE and the UPDATE of the transaction.
unfoldable pub drop_artifact : String → ℕ → ℕ → Store → Store
drop_artifact tenant artifact_id digest s = record s {
  artifacts = delete (artifact_owned tenant artifact_id) s.artifacts;
  blobs = update (counted_at digest) decrement s.blobs;
}

unfoldable pub delete_artifact : String → ℕ → Action (Unit {0})
unfolding artifact_row drop_artifact
delete_artifact tenant artifact_id = do
  row ← artifact_row tenant artifact_id
  current ← artifact_row tenant artifact_id
  changed ← gets (λ s. count (counted_at row.sha256) s.blobs)
  fault_if (not (changed == 1)) "blob refcount invariant violated"
  modify (drop_artifact tenant artifact_id row.sha256)
