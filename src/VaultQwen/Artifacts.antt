-- ===== src/VaultQwen/Artifacts.antt =====
-- vaultdrop/qwen-v3/src: `list_artifacts` and `get_artifact` of uploads.py, `validate_pass` of blobs.py
-- and the listing of blobs in httpd.py.
use qwen_3_8_evals.Prelude.{
  ℕ, ◌+◌, String, Bool, true, false, ◌&&◌, ◌||◌, Option, none, some, List, [], ◌∷◌, map, length,
  leb, ltb, ◌==◌, if◌then◌else◌, str_eq, find, select, update, lookup, Dict, sort,
}
use qwen_3_8_evals.VaultQwen.Types.{is_active, Artifact, Blob, Store}
use qwen_3_8_evals.VaultQwen.Blobs.{blob_at}

pub record Listed : Type 0 where
  pub artifact_id : ℕ
  pub name : String
  pub size : ℕ
  pub sha256 : ℕ

-- ORDER BY created_at, id
abbrev pub older : Artifact → Artifact → Bool
older a b = ltb a.created_at b.created_at || (a.created_at == b.created_at && leb a.id b.id)

abbrev pub listed : Artifact → Listed
listed a = record { artifact_id = a.id; name = a.name; size = a.size; sha256 = a.sha256 }

unfoldable pub list_artifacts : String → Store → List Listed
list_artifacts tenant s =
    map listed (sort older (select (λ a. str_eq a.tenant_id tenant) s.artifacts))

-- The bytes that are sent after Content-Length: those of the file, or none if it cannot be opened.
pub record Download : Type 0 where
  pub content_length : ℕ
  pub content : Option (List ℕ)

-- WHERE id=? AND tenant_id=?
abbrev pub artifact_owned : String → ℕ → Artifact → Bool
artifact_owned tenant artifact_id a = a.id == artifact_id && str_eq a.tenant_id tenant

unfoldable pub get_artifact : String → ℕ → Store → Option Download
get_artifact tenant artifact_id s = elim (find (artifact_owned tenant artifact_id) s.artifacts) [
  | none ↦ none
  | some a ↦ some (record { content_length = a.size; content = lookup a.blob_hash s.blob_files })
]

pub record Validation : Type 0 where
  pub scanned : ℕ
  pub valid : ℕ
  pub mismatch : ℕ

-- UPDATE blobs SET validated=? WHERE hash=?, where it changes.
unfoldable pub flag : Blob → Bool → List Blob → List Blob
flag b good rows =
    if b.validated
    then (if good then rows else set_to false)
    else (if good then set_to true else rows)
  where
    set_to : Bool → List Blob
    set_to v = update (blob_at b.hash) (λ x. record x { validated = v }) rows

module _ (sha256 : List ℕ → ℕ) where
  -- `stream_hash_file` and the comparison; a missing file never fits.
  abbrev pub is_good : Option (List ℕ) → Blob → Bool
  is_good none b = false
  is_good (some content) b = sha256 content == b.hash && length content == b.size

  abbrev pub counted : Bool → Validation → Validation
  counted true r = record r { scanned = r.scanned + 1; valid = r.valid + 1 }
  counted false r = record r { scanned = r.scanned + 1; mismatch = r.mismatch + 1 }

  -- The loop, over the active rows that the SELECT gave.
  unfoldable pub validate_rows :
      List Blob → Dict (List ℕ) → Validation × List Blob → Validation × List Blob
  unfolding flag
  validate_rows [] files done = done
  validate_rows (b ∷ rest) files done =
      let good = is_good (lookup b.hash files) b in
      validate_rows rest files (counted good done.0, flag b good done.1)

  unfoldable pub validate_pass : Store → Validation × Store
  unfolding validate_rows
  validate_pass s =
      let done =
        validate_rows (select (λ b. is_active b.state) s.blobs) s.blob_files
          (record { scanned = 0; valid = 0; mismatch = 0 }, s.blobs) in
      (done.0, record s { blobs = done.1 })

pub record BlobRow : Type 0 where
  pub content_hash : ℕ
  pub refcount : ℕ
  pub size : ℕ
  pub validated : Bool

abbrev pub blob_row : Blob → BlobRow
blob_row b = record {
  content_hash = b.hash;
  refcount = b.refcount;
  size = b.size;
  validated = b.validated;
}

-- GET /admin/blobs, ORDER BY hash
unfoldable pub list_blobs : Store → List BlobRow
list_blobs s = map blob_row (sort (λ a b. leb a.hash b.hash) s.blobs)
