-- ===== src/VaultQwen/Claims.antt =====
-- vaultdrop/qwen-v3/src/uploads.py: `finalize` up to its conditional UPDATE, and `_assembly`.
use qwen_3_8_evals.Prelude.{
  ℕ, zero, suc, ◌+◌, ◌-◌, ◌/◌, String, Bool, true, false, ◌&&◌, Option, none, some, List, [], ◌++◌,
  length, ◌==◌, if◌then◌else◌, str_eq, find, update, count,
}
use qwen_3_8_evals.Prelude.Int.{ℤ, pos, negsuc}
use qwen_3_8_evals.Text.{hex_value}
use qwen_3_8_evals.Effect.{Outcome, ok, err, fault}
use qwen_3_8_evals.VaultQwen.Types.{
  UploadState, opened, finalizing, finalized, is_open, Upload, ChunkFile, Store,
}
use qwen_3_8_evals.VaultQwen.Blobs.{Job, finalizing_at}

-- What a request is answered with.
pub data Answer : Type 0 where
  finalized_as : Option ℕ → Answer
  failed : ℕ → String → Answer
  deleted : Answer
  swept : ℕ → ℕ → ℕ → Answer

abbrev pub upload_at : ℕ → Upload → Bool
upload_at upload_id u = u.id == upload_id

-- WHERE id=? AND state='open'
abbrev pub open_at : ℕ → Upload → Bool
open_at upload_id u = u.id == upload_id && is_open u.state

abbrev pub file_at : ℕ → ℕ → ChunkFile → Bool
file_at upload_id index f = f.upload_id == upload_id && f.index == index

-- `_ceil_chunks`
unfoldable pub ceil_chunks : ℕ → ℕ → ℕ
ceil_chunks total_size chunk_size =
    if chunk_size == 0 then 0 else (total_size + chunk_size - 1) / chunk_size

-- The declared digest: text (in lowercase), something else of a length, or without one.
pub data Declared : Type 0 where
  missing : Declared
  text : List ℕ → Declared
  container : ℕ → Declared
  unsized : Declared

-- What the winner takes along: its row, the declared text (`none` if `.lower()` raises), the
-- artifact's id and the clock.
pub record Claim : Type 0 where
  pub row : Upload
  pub declared : Option (List ℕ)
  pub artifact_id : ℕ
  pub now : ℕ

-- Where a thread goes after the first part of `finalize`.
pub data Start : Type 0 where
  replied : Answer → Start
  lost : ℕ → Start
  won : Claim → Start

abbrev pub sized : ℕ → Option (List ℕ) → Outcome Answer (Option (List ℕ))
sized n value = if n == 64 then ok value else err (failed 400 "sha256 must be 64 hex chars")

unfoldable pub check_declared : Declared → Outcome Answer (Option (List ℕ))
check_declared missing = err (failed 400 "sha256 must be 64 hex chars")
check_declared (text t) = sized (length t) (some t)
check_declared (container n) = sized n none
check_declared unsized = fault "object has no len()"

-- `not isinstance(declared_size, int) or isinstance(declared_size, bool) or declared_size < 0`
abbrev pub natural : Option ℤ → Option ℕ
natural none = none
natural (some (pos n)) = some n
natural (some (negsuc _)) = none

unfoldable pub check_size : Option ℤ → Upload → Outcome Answer (Unit {0})
check_size size row = elim (natural size) [
  | none ↦ err (failed 400 "size must be a non-negative integer")
  | some n ↦
      if n == row.total_size then ok tt else err (failed 422 "declared size does not match upload")
]

unfoldable pub set_finalizing : ℕ → Store → Store
set_finalizing upload_id s = record s {
  uploads = update (open_at upload_id) (λ u. record u { state = finalizing }) s.uploads;
}

-- The conditional UPDATE: `cur.rowcount == 1` decides who goes on.
unfoldable pub claim : Claim → Store → Start × Store
unfolding set_finalizing
claim c s = (
  if count (open_at c.row.id) s.uploads == 1 then won c else lost c.row.id,
  set_finalizing c.row.id s,
)

unfoldable pub finalize_open :
    Outcome Answer (Option (List ℕ))
    → Outcome Answer (Unit {0})
    → Upload
    → ℕ
    → ℕ
    → Store
    → Start × Store
unfolding claim
finalize_open (ok declared) (ok _) row artifact_id now s =
    claim (record { row = row; declared = declared; artifact_id = artifact_id; now = now }) s
finalize_open (ok _) (err a) row artifact_id now s = (replied a, s)
finalize_open (ok _) (fault m) row artifact_id now s = (replied (failed 500 "internal error"), s)
finalize_open (err a) size row artifact_id now s = (replied a, s)
finalize_open (fault _) size row artifact_id now s = (replied (failed 500 "internal error"), s)

-- A row that is finalized already.
abbrev pub finalized_before : Option ℕ → Answer
finalized_before none = failed 409 "upload was finalized; its artifact has been deleted"
finalized_before (some i) = finalized_as (some i)

unfoldable pub finalize_row :
    UploadState → Upload → Declared → Option ℤ → ℕ → ℕ → Store → Start × Store
unfolding finalize_open check_declared check_size
finalize_row finalized row sha256 size artifact_id now s =
    (replied (finalized_before row.artifact_id), s)
finalize_row opened row sha256 size artifact_id now s =
    finalize_open (check_declared sha256) (check_size size row) row artifact_id now s
finalize_row finalizing row sha256 size artifact_id now s =
    finalize_open (check_declared sha256) (check_size size row) row artifact_id now s

-- WHERE id=?, then `row["tenant_id"] != tenant_id`
abbrev pub owned : String → ℕ → Upload → Bool
owned tenant upload_id u = u.id == upload_id && str_eq u.tenant_id tenant

unfoldable pub finalize_found : Option Upload → Declared → Option ℤ → ℕ → ℕ → Store → Start × Store
unfolding finalize_row
finalize_found none sha256 size artifact_id now s = (replied (failed 404 "not found"), s)
finalize_found (some row) sha256 size artifact_id now s =
    finalize_row row.state row sha256 size artifact_id now s

-- `finalize` up to its conditional UPDATE.
unfoldable pub start_finalize : String → ℕ → Declared → Option ℤ → ℕ → ℕ → Store → Start × Store
unfolding finalize_found
start_finalize tenant upload_id sha256 size artifact_id now s =
    finalize_found (find (owned tenant upload_id) s.uploads) sha256 size artifact_id now s

unfoldable pub rollback_finalizing : ℕ → Store → Store
rollback_finalizing upload_id s = record s {
  uploads = update (finalizing_at upload_id) (λ u. record u { state = opened }) s.uploads;
}

abbrev pub content_of : Option ChunkFile → Option (List ℕ)
content_of none = none
content_of (some f) = some f.content

abbrev pub append_both : Option (List ℕ) → Option (List ℕ) → Option (List ℕ)
append_both (some xs) (some ys) = some (xs ++ ys)
append_both none _ = none
append_both (some xs) none = none

-- `_assembly`: the chunk files from `index` on, of which `left` remain. `none` is `_MissingChunk`.
unfoldable pub assembly : ℕ → ℕ → ℕ → List ChunkFile → Option (List ℕ)
assembly upload_id index zero files = some []
assembly upload_id index (suc left) files =
    append_both (content_of (find (file_at upload_id index) files))
      (assembly upload_id (suc index) left files)

-- `digest == declared.lower()`
abbrev pub spells : List ℕ → ℕ → Bool
spells t digest = elim (hex_value true (some 0) t) [ none ↦ false | some n ↦ n == digest ]

module _ (sha256 : List ℕ → ℕ) where
  -- The checks of `_finalize_winner` on what was assembled.
  unfoldable pub verify : Option (List ℕ) → Claim → Outcome Answer Job
  verify none c = err (failed 422 "chunks incomplete")
  verify (some content) c = elim c.declared [
    | none ↦ fault "object has no attribute 'lower'"
    | some t ↦
        if spells t (sha256 content) && length content == c.row.total_size
        then ok (record {
          upload_id = c.row.id;
          tenant_id = c.row.tenant_id;
          name = c.row.name;
          digest = sha256 content;
          size = length content;
          artifact_id = c.artifact_id;
          now = c.now;
          content = content;
        })
        else err (failed 422 "content does not match declared digest")
  ]

  unfoldable pub assemble : Claim → Store → Outcome Answer Job
  unfolding assembly ceil_chunks verify
  assemble c s =
      verify (assembly c.row.id 0 (ceil_chunks c.row.total_size c.row.chunk_size) s.chunk_files) c
