-- ===== src/VaultQwen/Workers.antt =====
-- The threads of vaultdrop/qwen-v3 that move blobs: `_finalize_winner` of uploads.py from the staging
-- file on, with `decide_ingest_mode` and `_settle_concurrent_or_new` of blobs.py; `gc_pass`; and
-- `delete_artifact`. A thread stands at a point between two statements that touch what others see,
-- and `advance` runs it to the next such point.
use qwen_3_8_evals.Prelude.{
  ℕ, suc, ◌+◌, String, Bool, true, false, Option, none, some, List, [], ◌∷◌, length, count, ◌==◌,
  if◌then◌else◌, find, update, delete, lookup, str_eq,
}
use qwen_3_8_evals.Prelude.Int.{ℤ}
use qwen_3_8_evals.Effect.{Outcome, ok, err, fault}
use qwen_3_8_evals.VaultQwen.Types.{
  opened, finalizing, finalized, Upload, Artifact, BlobState, active, collecting, Blob, Store,
  Raised, upload_error, increment_lost,
}
use qwen_3_8_evals.VaultQwen.Claims.{
  Answer, finalized_as, failed, deleted, swept, Claim, Start, replied, lost, won, Declared,
  upload_at, start_finalize, rollback_finalizing, assemble,
}
use qwen_3_8_evals.VaultQwen.Blobs.{
  Job, Mode, new, increment, row_state, is_present, link_blob, unlink_blob, commit_finalization,
  artifact_at, last_id, mark, candidates, is_collected, is_referenced, collect, decrement_refcount,
}

pub data Worker : Type 0 where
  idle : Worker
  -- the winner before `_assembly`, and a loser in its loop
  assembling : Claim → Worker
  losing : ℕ → Worker
  -- before `decide_ingest_mode` reads the row
  staged : Job → Worker
  -- in `_wait_for_gc_to_release`
  waiting : Job → Worker
  -- before the first `os.link`
  linking : Job → Worker
  -- in the loop after FileExistsError
  settling : Job → Worker
  -- the window is over: before `os.unlink(dst)`, then before the second `os.link`
  replacing : Job → Worker
  relinking : Job → Worker
  -- before the commit, in either mode
  linked : Job → Worker
  counting : Job → Worker
  -- `delete_artifact` with the row that it read
  deleting : Artifact → Worker
  -- `gc_pass` with its id, the clock, the number of candidates, `bytes_freed` and what is left
  sweeping : ℕ → ℕ → ℕ → ℕ → List Blob → Worker
  answered : Answer → Worker

-- Every failure is answered after `_rollback_finalizing`.
abbrev pub give_up : Job → String → Store → Worker × Store
give_up j message s = (answered (failed 500 message), rollback_finalizing j.upload_id s)

-- A failure before the staging file is there.
unfoldable pub assembled : Outcome Answer Job → Claim → Store → Worker × Store
unfolding rollback_finalizing
assembled (ok j) c s = (staged j, s)
assembled (err a) c s = (answered a, rollback_finalizing c.row.id s)
assembled (fault _) c s =
    (answered (failed 500 "internal error during finalization"), rollback_finalizing c.row.id s)

-- One round of `_finalize_loser`.
unfoldable pub lose_round : Option Upload → Bool → ℕ → Worker
lose_round none late upload_id = answered (failed 500 "internal error")
lose_round (some u) late upload_id = elim u.state [
  | finalized ↦ answered (finalized_as u.artifact_id)
  | opened ↦ answered (failed 409 "concurrent finalization failed; retry")
  | finalizing ↦
      if late
      then answered (failed 500 "concurrent finalization did not complete; retry")
      else losing upload_id
]

-- `decide_ingest_mode`
abbrev pub decided : Option BlobState → Job → Worker
decided none j = linking j
decided (some active) j = counting j
decided (some collecting) j = waiting j

-- One round of `_wait_for_gc_to_release`; `late` says that the deadline is over.
unfoldable pub wait_round : Option BlobState → Bool → Job → Store → Worker × Store
unfolding rollback_finalizing
wait_round none late j s = (linking j, s)
wait_round (some _) true j s = give_up j "finalization blocked by in-flight GC; retry" s
wait_round (some _) false j s = (waiting j, s)

-- One round of the loop of `_settle_concurrent_or_new`.
unfoldable pub settle_round : Option BlobState → Bool → Job → Worker
settle_round (some active) late j = counting j
settle_round (some collecting) late j = settling j
settle_round none true j = replacing j
settle_round none false j = settling j

-- The first `os.link`, whose FileExistsError is caught.
unfoldable pub try_link : Bool → Job → Store → Worker × Store
unfolding link_blob
try_link true j s = (settling j, s)
try_link false j s = (linked j, link_blob j s)

-- The second one, whose FileExistsError is not.
unfoldable pub try_relink : Bool → Job → Store → Worker × Store
unfolding link_blob rollback_finalizing
try_relink true j s = give_up j "internal error during finalization" s
try_relink false j s = (linked j, link_blob j s)

-- The `try` around `commit_finalization`; `_IncrementLost` starts the loop again.
unfoldable pub conclude : Outcome Raised (Unit {0}) → Job → Store → Worker × Store
unfolding rollback_finalizing
conclude (ok _) j s = (answered (finalized_as (some j.artifact_id)), s)
conclude (err increment_lost) j s = (staged j, s)
conclude (err (upload_error _ _ _)) j s = give_up j "internal error during finalization" s
conclude (fault _) j s = give_up j "internal error during finalization" s

unfoldable pub commit : Mode → Job → Store → Worker × Store
unfolding commit_finalization conclude
commit mode j s = let done = commit_finalization mode j s in conclude done.0 j done.1

-- The transaction of `delete_artifact`, for the row that was read before it.
unfoldable pub remove_artifact : Artifact → Store → Store
unfolding decrement_refcount
remove_artifact a s = decrement_refcount a.blob_hash (record s {
  uploads =
      update (λ u. elim u.artifact_id [ none ↦ false | some i ↦ i == a.id ])
        (λ u. record u { artifact_id = none }) s.uploads;
  artifacts = delete (artifact_at a.id) s.artifacts;
})

abbrev pub freed_by : Option (List ℕ) → ℕ → ℕ
freed_by none size = 0
freed_by (some _) size = size

-- Phase 3 of `gc_pass`, whose DELETE the foreign key may refuse.
unfoldable pub finish_gc : Bool → ℕ → ℕ → ℕ → ℕ → Store → Worker × Store
unfolding collect
finish_gc true pass now scanned freed s = (answered (failed 500 "internal error"), s)
finish_gc false pass now scanned freed s = (
  answered (swept scanned (count (is_collected pass) s.blobs) freed),
  collect pass scanned freed now s,
)

-- Phase 2 takes the next file; after the last one comes phase 3.
unfoldable pub sweep : ℕ → ℕ → ℕ → ℕ → List Blob → Store → Worker × Store
unfolding unlink_blob finish_gc is_referenced
sweep pass now scanned freed [] s =
    finish_gc (is_referenced (is_collected pass) s) pass now scanned freed s
sweep pass now scanned freed (b ∷ rest) s = (
  sweeping pass now scanned (freed + freed_by (lookup b.hash s.blob_files) b.size) rest,
  unlink_blob b.hash s,
)

-- Phase 1 of `gc_pass`.
unfoldable pub start_gc : ℕ → Store → Worker × Store
unfolding mark candidates
start_gc now s =
    let pass = suc (last_id s.passes) in
    let left = candidates pass (mark now s) in (sweeping pass now (length left) 0 left, mark now s)

-- `row is None or row["tenant_id"] != tenant_id`
abbrev pub found_to_delete : String → Option Artifact → Worker
found_to_delete tenant none = answered (failed 404 "not found")
found_to_delete tenant (some a) =
    if str_eq a.tenant_id tenant then deleting a else answered (failed 404 "not found")

unfoldable pub start_delete : String → ℕ → Store → Worker × Store
start_delete tenant artifact_id s =
    (found_to_delete tenant (find (artifact_at artifact_id) s.artifacts), s)

abbrev pub started : Start × Store → Worker × Store
started (replied a, s) = (answered a, s)
started (lost u, s) = (losing u, s)
started (won c, s) = (assembling c, s)

pub data Request : Type 0 where
  finalize : String → ℕ → Declared → Option ℤ → ℕ → ℕ → Request
  delete_artifact : String → ℕ → Request
  gc : ℕ → Request

unfoldable pub accept : Request → Store → Worker × Store
unfolding start_finalize start_delete start_gc
accept (finalize tenant upload_id sha256 size artifact_id now) s =
    started (start_finalize tenant upload_id sha256 size artifact_id now s)
accept (delete_artifact tenant artifact_id) s = start_delete tenant artifact_id s
accept (gc now) s = start_gc now s

module _ (sha256 : List ℕ → ℕ) where
  unfoldable pub advance : Bool → Worker → Store → Worker × Store
  unfolding assemble assembled lose_round row_state wait_round settle_round try_link try_relink
      commit remove_artifact sweep unlink_blob
  advance late idle s = (idle, s)
  advance late (assembling c) s = assembled (assemble sha256 c s) c s
  advance late (losing u) s = (lose_round (find (upload_at u) s.uploads) late u, s)
  advance late (staged j) s = (decided (row_state j.digest s) j, s)
  advance late (waiting j) s = wait_round (row_state j.digest s) late j s
  advance late (linking j) s = try_link (is_present (lookup j.digest s.blob_files)) j s
  advance late (settling j) s = (settle_round (row_state j.digest s) late j, s)
  advance late (replacing j) s = (relinking j, unlink_blob j.digest s)
  advance late (relinking j) s = try_relink (is_present (lookup j.digest s.blob_files)) j s
  advance late (linked j) s = commit new j s
  advance late (counting j) s = commit increment j s
  advance late (deleting a) s = (answered deleted, remove_artifact a s)
  advance late (sweeping pass now scanned freed left) s = sweep pass now scanned freed left s
  advance late (answered a) s = (answered a, s)
