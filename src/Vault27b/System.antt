-- ===== src/Vault27b/System.antt =====
-- Any number of threads of vaultdrop/qwen-3-8-27b-v2 over one store, interleaved in any order, and restarts.
use qwen_3_8_evals.Prelude.{
  ℕ, String, ◌≡◌, ◌≢◌, ◌⊎◌, Bool, true, false, Option, some, List, ◌==◌, if◌then◌else◌, lookup,
  find,
}
use qwen_3_8_evals.Json.{Json}
use qwen_3_8_evals.Vault27b.Types.{Store, empty, pending, blob_at, is_present, is_usable}
use qwen_3_8_evals.Vault27b.Threads.{
  Worker, idle, assembling, reading, placing, inserting, recovering, replacing, resurrecting,
  yielding, selecting, sweeping, quarantining, judging, restoring, answered, Request, accept,
  advance, row_state, reread,
}
use qwen_3_8_evals.Vault27b.Transactions.{delete_artifact}
use qwen_3_8_evals.Vault27b.Uploads.{create_upload, put_chunk}
use qwen_3_8_evals.Vault27b.Recover.{recover}

-- A number without a request yet is an `idle` thread.
pub record System : Type 0 where
  pub store : Store
  pub worker : ℕ → Worker

abbrev pub set_worker : ℕ → Worker → (ℕ → Worker) → ℕ → Worker
set_worker i w workers k = if k == i then w else workers k

abbrev pub moved : System → ℕ → Worker × Store → System
moved s i next = record { store = next.1; worker = set_worker i next.0 s.worker }

abbrev pub initial : System
initial = record { store = empty; worker = λ _. idle }

-- The requests that one step answers.
pub data Call : Type 0 where
  create : String → Json → Json → Json → ℕ → ℕ → Call
  store : String → ℕ → ℕ → List ℕ → Option (List ℕ) → ℕ → Call
  remove : String → ℕ → Call

module _ (sha256 : List ℕ → ℕ) where
  unfoldable pub perform : Call → Store → Store
  unfolding create_upload put_chunk delete_artifact
  perform (create tenant name total_size chunk_size upload_id now) s =
      (create_upload tenant name total_size chunk_size upload_id now s).1
  perform (store tenant upload_id index source declared n) s =
      (put_chunk sha256 tenant upload_id index source declared n s).1
  perform (remove tenant artifact_id) s = (delete_artifact tenant artifact_id s).1

  pub data Step (s : System) : System → Type 0 where
    request : (i : ℕ) (r : Request) → s.worker i ≡ idle → Step s (moved s i (accept r s.store))
    run : (i : ℕ) (busy : Bool) → Step s (moved s i (advance sha256 busy (s.worker i) s.store))
    call : (c : Call) → Step s (record s { store = perform c s.store })
    restart : Step s (record { store = recover s.store; worker = λ _. idle })

  pub data Run (s : System) : System → Type 0 where
    stop : Run s s
    later : {t u : System} → Run s t → Step t u → Run s u

-- A thread whose quarantined file holds the bytes of a digest.
unfoldable pub quarantines : ℕ → Worker → Bool
quarantines digest (judging _ b _ _ _) = b.content_hash == digest
quarantines digest (restoring _ b _ _) = b.content_hash == digest
quarantines digest idle = false
quarantines digest (assembling _) = false
quarantines digest (reading _ _ _) = false
quarantines digest (placing _ _ _) = false
quarantines digest (inserting _ _) = false
quarantines digest (recovering _ _ _) = false
quarantines digest (replacing _ _ _) = false
quarantines digest (resurrecting _ _) = false
quarantines digest (yielding _ _ _) = false
quarantines digest selecting = false
quarantines digest (sweeping _ _) = false
quarantines digest (quarantining _ _ _ _) = false
quarantines digest (answered _) = false

-- The bytes of a digest: in its file, or in the quarantine of a thread.
abbrev pub Available : ℕ → System → Type 0
Available digest s =
    (is_present (lookup digest s.store.blob_files) ≡ true)
    ⊎ ((j : ℕ) × (quarantines digest (s.worker j) ≡ true))

-- The points at which the code relies on what it does not check. A collection that is about to unlink
-- what it quarantined reads the row as it is, and does not find it marked again; and the bytes that a
-- finalization has placed over a tombstone are still there when it commits.
abbrev pub Current : Worker → System → Type 0
Current (judging _ b seen _ rest) s =
    (reread rest seen (row_state b.content_hash s.store) ≡ row_state b.content_hash s.store)
    × (row_state b.content_hash s.store ≢ some pending)
Current (resurrecting c _) s = Available c.digest s
Current idle s = Unit
Current (assembling _) s = Unit
Current (reading _ _ _) s = Unit
Current (placing _ _ _) s = Unit
Current (inserting _ _) s = Unit
Current (recovering _ _ _) s = Unit
Current (replacing _ _ _) s = Unit
Current (yielding _ _ _) s = Unit
Current selecting s = Unit
Current (sweeping _ _) s = Unit
Current (quarantining _ _ _ _) s = Unit
Current (restoring _ _ _ _) s = Unit
Current (answered _) s = Unit

module _ {sha256 : List ℕ → ℕ} where
  -- A crash meets no quarantined file whose row is active or marked.
  abbrev pub CurrentStep : {s t : System} → Step sha256 s t → Type 0
  CurrentStep (request _ _ _) = Unit
  CurrentStep {s} (run i _) = Current (s.worker i) s
  CurrentStep (call _) = Unit
  CurrentStep {s} restart =
      (i h : ℕ)
      → quarantines h (s.worker i) ≡ true
      → is_usable (find (blob_at h) s.store.blobs) ≡ false

  abbrev pub CurrentRun : {s t : System} → Run sha256 s t → Type 0
  CurrentRun stop = Unit
  CurrentRun (later r step) = CurrentRun r × CurrentStep step
