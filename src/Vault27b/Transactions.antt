-- ===== src/Vault27b/Transactions.antt =====
-- The write transactions of vaultdrop/qwen-3-8-27b-v2/src/vaultdrop/store.py. One that a constraint refuses
-- is rolled back.
use qwen_3_8_evals.Prelude.{
  ℕ, suc, ◌-◌, String, Bool, true, false, not, ◌&&◌, Option, none, some, List, ◌∷◌, ◌==◌,
  if◌then◌else◌, str_eq, find, update, delete, count, any, put, select, without,
}
use qwen_3_8_evals.Effect.{Outcome, ok, err, fault}
use qwen_3_8_evals.Vault27b.Types.{
  finalized, Artifact, active, pending, deleted, Blob, Store, is_active, is_pending, is_deleted,
  upload_at, artifact_at, artifact_of, blob_at,
}
use qwen_3_8_evals.Vault27b.Claims.{Claim}

-- sqlite3.IntegrityError, by the key that it names.
pub data Integrity : Type 0 where
  artifact_id_taken upload_id_taken content_hash_taken : Integrity

-- INSERT INTO artifacts
unfoldable pub add_artifact : Claim → Store → Store
add_artifact c s = record s {
  artifacts =
      record {
        artifact_id = c.artifact_id;
        tenant_id = c.tenant_id;
        upload_id = c.upload_id;
        name = c.name;
        size = c.size;
        sha256 = c.digest;
        created_at = c.now;
      }
      ∷ s.artifacts;
}

-- UPDATE uploads SET state='finalized'
unfoldable pub finalize_upload : ℕ → Store → Store
finalize_upload upload_id s = record s {
  uploads = update (upload_at upload_id) (λ u. record u { state = finalized }) s.uploads;
}

-- `_insert_artifact`
unfoldable pub insert_artifact : Claim → Store → Outcome Integrity Store
unfolding add_artifact finalize_upload
insert_artifact c s =
    if any (artifact_at c.artifact_id) s.artifacts
    then err artifact_id_taken
    else if any (artifact_of c.upload_id) s.artifacts
    then err upload_id_taken
    else ok (finalize_upload c.upload_id (add_artifact c s))

-- INSERT INTO blobs, with refcount 1
unfoldable pub insert_blob : Claim → Store → Store
insert_blob c s = record s {
  blobs =
      record {
        content_hash = c.digest;
        size = c.size;
        refcount = 1;
        state = active;
        validated = true;
        created_at = c.now;
      }
      ∷ s.blobs;
}

-- `_claim_insert`
unfoldable pub claim_insert : Claim → Store → Outcome Integrity Store
unfolding insert_artifact insert_blob
claim_insert c s =
    if any (blob_at c.digest) s.blobs
    then err content_hash_taken
    else insert_artifact c (insert_blob c s)

-- WHERE content_hash=? AND state IN ('active', 'pending')
abbrev pub usable_at : ℕ → Blob → Bool
usable_at digest b = b.content_hash == digest && not (is_deleted b.state)

abbrev pub reused : Blob → Blob
reused b = record b { state = active; refcount = suc b.refcount }

unfoldable pub reuse_blob : ℕ → Store → Store
reuse_blob digest s = record s { blobs = update (usable_at digest) reused s.blobs }

abbrev pub committed : Outcome Integrity Store → Outcome Integrity (Option Store)
committed (ok s) = ok (some s)
committed (err e) = err e
committed (fault m) = fault m

-- `_claim_recover`; none is False.
unfoldable pub claim_recover : Claim → Store → Outcome Integrity (Option Store)
unfolding reuse_blob insert_artifact
claim_recover c s =
    if count (usable_at c.digest) s.blobs == 1
    then committed (insert_artifact c (reuse_blob c.digest s))
    else ok none

-- WHERE content_hash=? AND state='deleted'
abbrev pub tombstone_at : ℕ → Blob → Bool
tombstone_at digest b = b.content_hash == digest && is_deleted b.state

unfoldable pub clear_tombstone : ℕ → Store → Store
clear_tombstone digest s = record s { blobs = delete (tombstone_at digest) s.blobs }

-- `_claim_resurrect`
unfoldable pub claim_resurrect : Claim → Store → Outcome Integrity Store
unfolding clear_tombstone claim_insert
claim_resurrect c s = claim_insert c (clear_tombstone c.digest s)

-- WHERE refcount=0 AND state='active'
abbrev pub is_unreferenced : Blob → Bool
is_unreferenced b = b.refcount == 0 && is_active b.state

abbrev pub marked : Blob → Blob
marked b = record b { state = pending }

unfoldable pub mark : Store → Store
mark s = record s { blobs = update is_unreferenced marked s.blobs }

-- WHERE refcount=0 AND state='pending'
abbrev pub is_candidate : Blob → Bool
is_candidate b = is_pending b.state && b.refcount == 0

unfoldable pub candidates : Store → List Blob
candidates s = select is_candidate s.blobs

abbrev pub candidate_at : ℕ → Blob → Bool
candidate_at digest b = b.content_hash == digest && is_candidate b

abbrev pub buried : Blob → Blob
buried b = record b { state = deleted }

unfoldable pub bury : ℕ → Store → Store
bury digest s = record s { blobs = update (candidate_at digest) buried s.blobs }

-- UPDATE blobs SET refcount=refcount-1 WHERE content_hash=?
abbrev pub released : Blob → Blob
released b = record b { refcount = b.refcount - 1 }

-- The rows for which CHECK (refcount >= 0) refuses that.
abbrev pub is_uncounted : ℕ → Blob → Bool
is_uncounted digest b = b.content_hash == digest && b.refcount == 0

unfoldable pub drop_artifact : Artifact → Store → Store
drop_artifact a s = record s {
  artifacts = delete (artifact_at a.artifact_id) s.artifacts;
  blobs = update (blob_at a.sha256) released s.blobs;
}

abbrev pub artifact_owned : String → ℕ → Artifact → Bool
artifact_owned tenant artifact_id a = a.artifact_id == artifact_id && str_eq a.tenant_id tenant

-- `delete_artifact`, in one transaction; a fault is the CHECK.
unfoldable pub delete_artifact : String → ℕ → Store → Outcome Integrity Bool × Store
unfolding drop_artifact
delete_artifact tenant artifact_id s = elim (find (artifact_owned tenant artifact_id) s.artifacts) [
  | none ↦ (ok false, s)
  | some a ↦
      if any (is_uncounted a.sha256) s.blobs
      then (fault "CHECK constraint failed: refcount >= 0", s)
      else (ok true, drop_artifact a s)
]

-- The moves of a blob's file.
unfoldable pub place_blob : ℕ → List ℕ → Store → Store
place_blob digest content s = record s { blob_files = put digest content s.blob_files }

unfoldable pub take_blob : ℕ → Store → Store
take_blob digest s = record s { blob_files = without digest s.blob_files }
