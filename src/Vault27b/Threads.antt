-- ===== src/Vault27b/Threads.antt =====
-- The threads of vaultdrop/qwen-3-8-27b-v2/src/vaultdrop/store.py that move blobs: `finalize` from its
-- assembly on, with the attempts of `_claim`, and `gc_pass`. A thread stands at a point between two
-- statements on what is shared, and `advance` runs it to the next. Temporary and quarantined files have
-- random names, and belong to their threads.
pub mod Answered
pub mod Agreed
use qwen_3_8_evals.Prelude.{
  ℕ, zero, suc, ◌+◌, String, Bool, true, false, Option, none, some, List, [], ◌∷◌, if◌then◌else◌,
  find, lookup,
}
use qwen_3_8_evals.Json.{Json}
use qwen_3_8_evals.Effect.{Outcome, ok, err, fault}
use qwen_3_8_evals.Vault27b.Types.{
  BlobState, active, pending, deleted, Artifact, Blob, Store, ApiError, api_error, artifact_of,
  blob_at,
}
use qwen_3_8_evals.Vault27b.Claims.{
  Order, Claim, Begun, ordered, existing, begin_finalize, assemble,
}
use qwen_3_8_evals.Vault27b.Transactions.{
  Integrity, artifact_id_taken, upload_id_taken, content_hash_taken, claim_insert, claim_recover,
  claim_resurrect, mark, candidates, bury, place_blob, take_blob,
}

-- scanned, collected and bytes_freed
pub record Tally : Type 0 where
  pub scanned : ℕ
  pub collected : ℕ
  pub bytes_freed : ℕ

pub data Answer : Type 0 where
  finalized_as : ℕ → Answer
  refused : ApiError → Answer
  swept : Tally → Answer

pub data Worker : Type 0 where
  idle : Worker
  assembling : Order → Worker
  -- `_claim` at the head of its loop, with whether `tmp_path` is still there and the attempts left
  reading : Claim → Bool → ℕ → Worker
  -- before `atomic_place` and before the transaction, for a digest without a row
  placing : Claim → Bool → ℕ → Worker
  inserting : Claim → ℕ → Worker
  recovering : Claim → Bool → ℕ → Worker
  -- the same for a tombstone
  replacing : Claim → Bool → ℕ → Worker
  resurrecting : Claim → ℕ → Worker
  -- before the winner's artifact is read
  yielding : Claim → Bool → ℕ → Worker
  -- `gc_pass` before its SELECT, and before the tombstone of the next candidate
  selecting : Worker
  sweeping : Tally → List Blob → Worker
  -- before `os.rename`, before the state is read again, and before `os.replace` or the unlink
  -- with what the connection sees of the candidate's row since its tombstone
  quarantining : Tally → Blob → Option BlobState → List Blob → Worker
  judging : Tally → Blob → Option BlobState → List ℕ → List Blob → Worker
  restoring : Tally → Blob → List ℕ → List Blob → Worker
  answered : Answer → Worker

abbrev pub failed : Worker
failed = answered (refused (api_error 500 "internal error"))

-- The next round of the loop, or what comes after it.
unfoldable pub attempt : Claim → Bool → ℕ → Worker
attempt c held zero = answered (refused (api_error 500 "claim contention; retry finalize"))
attempt c held (suc left) = reading c held left

abbrev pub claim_max_attempts : ℕ
claim_max_attempts = 5

unfoldable pub assembled : Outcome ApiError Claim → Worker
unfolding attempt
assembled (ok c) = attempt c true claim_max_attempts
assembled (err e) = answered (refused e)
assembled (fault _) = failed

abbrev pub state_of : Option Blob → Option BlobState
state_of none = none
state_of (some b) = some b.state

unfoldable pub row_state : ℕ → Store → Option BlobState
row_state digest s = state_of (find (blob_at digest) s.blobs)

unfoldable pub decided : Option BlobState → Claim → Bool → ℕ → Worker
decided none c held left = placing c held left
decided (some active) c held left = recovering c held left
decided (some pending) c held left = recovering c held left
decided (some deleted) c held left = replacing c held left

-- `if tmp_path is not None`
unfoldable pub place_held : Claim → Bool → Store → Store
unfolding place_blob
place_held c true s = place_blob c.digest c.content s
place_held c false s = s

-- Every IntegrityError of the insert starts the next attempt.
unfoldable pub inserted : Outcome Integrity Store → Claim → ℕ → Store → Worker × Store
unfolding attempt
inserted (ok t) c left s = (answered (finalized_as c.artifact_id), t)
inserted (err _) c left s = (attempt c false left, s)
inserted (fault _) c left s = (failed, s)

-- `"artifacts.upload_id" in str(e)`
unfoldable pub contended : Integrity → Claim → Bool → ℕ → Worker
unfolding attempt
contended upload_id_taken c held left = yielding c held left
contended artifact_id_taken c held left = attempt c held left
contended content_hash_taken c held left = attempt c held left

unfoldable pub recovered :
    Outcome Integrity (Option Store) → Claim → Bool → ℕ → Store → Worker × Store
unfolding attempt contended
recovered (ok (some t)) c held left s = (answered (finalized_as c.artifact_id), t)
recovered (ok none) c held left s = (attempt c held left, s)
recovered (err e) c held left s = (contended e c held left, s)
recovered (fault _) c held left s = (failed, s)

unfoldable pub resurrected : Outcome Integrity Store → Claim → ℕ → Store → Worker × Store
unfolding contended
resurrected (ok t) c left s = (answered (finalized_as c.artifact_id), t)
resurrected (err e) c left s = (contended e c false left, s)
resurrected (fault _) c left s = (failed, s)

-- `winner is not None`
unfoldable pub yielded : Option Artifact → Claim → Bool → ℕ → Worker
unfolding attempt
yielded (some a) c held left = answered (finalized_as a.artifact_id)
yielded none c held left = attempt c held left

abbrev pub scan_one : Tally → Tally
scan_one t = record t { scanned = suc t.scanned }

abbrev pub collect_one : Tally → Tally
collect_one t = record t { collected = suc t.collected }

abbrev pub free_one : Blob → Tally → Tally
free_one b t = record t { collected = suc t.collected; bytes_freed = t.bytes_freed + b.size }

-- The tombstone. What `txn` returns is a cursor, which is true whether a row changed or not.
unfoldable pub sweep : Bool → Tally → List Blob → Store → Worker × Store
unfolding bury row_state
sweep busy t [] s = (answered (swept t), s)
sweep busy t (b ∷ rest) s =
    let buried = bury b.content_hash s in
    if busy
    then (failed, s)
    else (quarantining (scan_one t) b (row_state b.content_hash buried) rest, buried)

-- `os.rename`, with FileNotFoundError
unfoldable pub quarantine :
    Option (List ℕ) → Tally → Blob → Option BlobState → List Blob → Store → Worker × Store
unfolding take_blob
quarantine none t b seen rest s = (sweeping (collect_one t) rest, s)
quarantine (some content) t b seen rest s =
    (judging t b seen content rest, take_blob b.content_hash s)

-- The state that `read_one` reads. The SELECT of `gc_pass` is on the same connection: while candidates
-- remain it is open, and the connection sees the rows as they were when the tombstone was committed. The
-- SELECT ends as the last candidate is fetched.
unfoldable pub reread : List Blob → Option BlobState → Option BlobState → Option BlobState
reread [] seen now = now
reread (_ ∷ _) seen now = seen

-- `state == "active"`; a quarantined file that is not restored is unlinked.
unfoldable pub judged : Option BlobState → Tally → Blob → List ℕ → List Blob → Worker
judged (some active) t b content rest = restoring t b content rest
judged (some pending) t b content rest = sweeping (free_one b t) rest
judged (some deleted) t b content rest = sweeping (free_one b t) rest
judged none t b content rest = sweeping (free_one b t) rest

pub data Request : Type 0 where
  finalize : String → ℕ → Json → Json → ℕ → ℕ → Request
  gc : Request

abbrev pub started : Outcome ApiError Begun → Worker
started (ok (ordered o)) = assembling o
started (ok (existing i)) = answered (finalized_as i)
started (err e) = answered (refused e)
started (fault _) = failed

unfoldable pub accept : Request → Store → Worker × Store
unfolding begin_finalize mark
accept (finalize tenant upload_id sha size artifact_id now) s =
    (started (begin_finalize tenant upload_id sha size artifact_id now s), s)
accept gc s = (selecting, mark s)

module _ (sha256 : List ℕ → ℕ) where
  -- `busy`: SQLite refuses BEGIN IMMEDIATE, and the request fails. It does so too when another thread has
  -- written since the SELECT of `gc_pass`, whose rows are therefore those of one moment.
  unfoldable pub advance : Bool → Worker → Store → Worker × Store
  unfolding assemble assembled row_state decided place_held claim_insert inserted claim_recover
      recovered claim_resurrect resurrected yielded candidates sweep quarantine reread judged
      place_blob
  advance busy idle s = (idle, s)
  advance busy (assembling o) s = (assembled (assemble sha256 o s), s)
  advance busy (reading c held left) s = (decided (row_state c.digest s) c held left, s)
  advance busy (placing c held left) s = (inserting c left, place_held c held s)
  advance busy (inserting c left) s =
      if busy then (failed, s) else inserted (claim_insert c s) c left s
  advance busy (recovering c held left) s =
      if busy then (failed, s) else recovered (claim_recover c s) c held left s
  advance busy (replacing c held left) s = (resurrecting c left, place_held c held s)
  advance busy (resurrecting c left) s =
      if busy then (failed, s) else resurrected (claim_resurrect c s) c left s
  advance busy (yielding c held left) s =
      (yielded (find (artifact_of c.upload_id) s.artifacts) c held left, s)
  advance busy selecting s =
      (sweeping (record { scanned = 0; collected = 0; bytes_freed = 0 }) (candidates s), s)
  advance busy (sweeping t left) s = sweep busy t left s
  advance busy (quarantining t b seen rest) s =
      quarantine (lookup b.content_hash s.blob_files) t b seen rest s
  advance busy (judging t b seen content rest) s =
      (judged (reread rest seen (row_state b.content_hash s)) t b content rest, s)
  advance busy (restoring t b content rest) s =
      (sweeping t rest, place_blob b.content_hash content s)
  advance busy (answered a) s = (answered a, s)
