-- ===== src/VaultQwen/Blobs.antt =====
-- vaultdrop/qwen-v3/src/blobs.py: the transactions on the rows of blobs and the moves of its files,
-- a function each: between two of them another thread may run.
use qwen_3_8_evals.Prelude.{
  ℕ, suc, ◌+◌, ◌-◌, String, Bool, true, false, not, ◌&&◌, Option, none, some, List, [], ◌∷◌, leb,
  ◌==◌, find, select, update, delete, count, any, put, without,
}
use qwen_3_8_evals.Effect.{atomically, raise_if, fault_if, gets, modify, ◌>>=◌, ◌>>◌}
use qwen_3_8_evals.VaultQwen.Types.{
  finalized, is_finalizing, Upload, Artifact, BlobState, active, collecting, is_active,
  is_collecting, Blob, Pass, Store, increment_lost, Action,
}

abbrev pub blob_at : ℕ → Blob → Bool
blob_at digest b = b.hash == digest

abbrev pub artifact_at : ℕ → Artifact → Bool
artifact_at artifact_id a = a.id == artifact_id

-- `artifacts.blob_hash = digest`
abbrev pub refers : ℕ → Artifact → Bool
refers digest a = a.blob_hash == digest

abbrev pub state_of : Option Blob → Option BlobState
state_of none = none
state_of (some b) = some b.state

unfoldable pub row_state : ℕ → Store → Option BlobState
row_state digest s = state_of (find (blob_at digest) s.blobs)

-- os.path.exists
abbrev pub is_present : Option (List ℕ) → Bool
is_present none = false
is_present (some _) = true

-- What a finalization commits: the verified staging file, and the rows to write.
pub record Job : Type 0 where
  pub upload_id : ℕ
  pub tenant_id : String
  pub name : String
  pub digest : ℕ
  pub size : ℕ
  pub artifact_id : ℕ
  pub now : ℕ
  pub content : List ℕ

-- os.link(staging_path, dst), where `dst` is free
unfoldable pub link_blob : Job → Store → Store
link_blob j s = record s { blob_files = put j.digest j.content s.blob_files }

-- os.unlink
unfoldable pub unlink_blob : ℕ → Store → Store
unlink_blob digest s = record s { blob_files = without digest s.blob_files }

pub data Mode : Type 0 where
  new increment : Mode

-- INSERT INTO blobs
unfoldable pub insert_blob : Job → Store → Store
insert_blob j s = record s {
  blobs =
      record {
        hash = j.digest;
        size = j.size;
        refcount = 1;
        state = active;
        validated = true;
        gc_pass_id = none;
        created_at = j.now;
      }
      ∷ s.blobs;
}

-- WHERE hash=? AND state='active'
abbrev pub active_at : ℕ → Blob → Bool
active_at digest b = b.hash == digest && is_active b.state

abbrev pub one_more : Blob → Blob
one_more b = record b { refcount = b.refcount + 1 }

unfoldable pub increment_blob : ℕ → Store → Store
increment_blob digest s = record s { blobs = update (active_at digest) one_more s.blobs }

-- The blob accounting of the commit.
unfoldable pub account : Mode → Job → Action (Unit {0})
unfolding insert_blob increment_blob
account new j = do
  taken ← gets (λ s. any (blob_at j.digest) s.blobs)
  fault_if taken "UNIQUE constraint failed: blobs.hash"
  modify (insert_blob j)
account increment j = do
  rowcount ← gets (λ s. count (active_at j.digest) s.blobs)
  modify (increment_blob j.digest)
  raise_if (not (rowcount == 1)) increment_lost

-- INSERT INTO artifacts
unfoldable pub insert_artifact : Job → Store → Store
insert_artifact j s = record s {
  artifacts =
      record {
        id = j.artifact_id;
        tenant_id = j.tenant_id;
        name = j.name;
        size = j.size;
        sha256 = j.digest;
        blob_hash = j.digest;
        created_at = j.now;
      }
      ∷ s.artifacts;
}

-- WHERE id=? AND state='finalizing'
abbrev pub finalizing_at : ℕ → Upload → Bool
finalizing_at upload_id u = u.id == upload_id && is_finalizing u.state

unfoldable pub finish_upload : Job → Store → Store
finish_upload j s = record s {
  uploads =
      update (finalizing_at j.upload_id)
        (λ u. record u {
          state = finalized;
          artifact_id = some j.artifact_id;
          finalized_at = some j.now;
        })
        s.uploads;
}

unfoldable pub commit_finalization : Mode → Job → Action (Unit {0})
unfolding account insert_artifact finish_upload
commit_finalization mode j = atomically (do
  account mode j
  taken ← gets (λ s. any (artifact_at j.artifact_id) s.artifacts)
  fault_if taken "UNIQUE constraint failed: artifacts.id"
  modify (insert_artifact j)
  modify (finish_upload j))

-- INTEGER PRIMARY KEY AUTOINCREMENT: no pass is ever deleted, so the newest has the largest id.
abbrev pub last_id : List Pass → ℕ
last_id [] = 0
last_id (p ∷ _) = p.id

-- INSERT INTO gc_passes
abbrev pub new_pass : ℕ → List Pass → List Pass
new_pass now passes =
    record {
      id = suc (last_id passes);
      started_at = now;
      finished_at = none;
      scanned = 0;
      collected = 0;
      bytes_freed = 0;
    }
    ∷ passes

-- WHERE state='active' AND refcount=0
abbrev pub is_unreferenced : Blob → Bool
is_unreferenced b = is_active b.state && b.refcount == 0

abbrev pub marked : ℕ → Blob → Blob
marked pass b = record b { state = collecting; gc_pass_id = some pass }

-- Phase 1 of `gc_pass`, up to its SELECT.
unfoldable pub mark : ℕ → Store → Store
mark now s = record s {
  passes = new_pass now s.passes;
  blobs = update is_unreferenced (marked (suc (last_id s.passes))) s.blobs;
}

abbrev pub is_pass : Option ℕ → ℕ → Bool
is_pass none pass = false
is_pass (some p) pass = p == pass

abbrev pub in_pass : ℕ → Blob → Bool
in_pass pass b = is_pass b.gc_pass_id pass

-- SELECT hash, size FROM blobs WHERE gc_pass_id=?
unfoldable pub candidates : ℕ → Store → List Blob
candidates pass s = select (in_pass pass) s.blobs

-- WHERE gc_pass_id=? AND state='collecting' AND refcount=0
abbrev pub is_collected : ℕ → Blob → Bool
is_collected pass b = in_pass pass b && is_collecting b.state && b.refcount == 0

-- FOREIGN KEY (blob_hash) REFERENCES blobs(hash): an artifact refers to one of the rows.
unfoldable pub is_referenced : (Blob → Bool) → Store → Bool
is_referenced p s = any (λ b. p b && any (refers b.hash) s.artifacts) s.blobs

abbrev pub pass_at : ℕ → Pass → Bool
pass_at pass p = p.id == pass

-- Phase 3 of `gc_pass`.
unfoldable pub collect : ℕ → ℕ → ℕ → ℕ → Store → Store
collect pass scanned freed now s = record s {
  blobs = delete (is_collected pass) s.blobs;
  passes =
      update (pass_at pass)
        (λ p. record p {
          finished_at = some now;
          scanned = scanned;
          collected = count (is_collected pass) s.blobs;
          bytes_freed = freed;
        })
        s.passes;
}

-- WHERE hash=? AND refcount>0
abbrev pub counted_at : ℕ → Blob → Bool
counted_at digest b = b.hash == digest && leb 1 b.refcount

abbrev pub one_less : Blob → Blob
one_less b = record b { refcount = b.refcount - 1 }

unfoldable pub decrement_refcount : ℕ → Store → Store
decrement_refcount digest s = record s { blobs = update (counted_at digest) one_less s.blobs }
