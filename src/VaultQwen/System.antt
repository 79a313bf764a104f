-- ===== src/VaultQwen/System.antt =====
-- Any number of threads of vaultdrop/qwen-v3 over one store, interleaved in any order, and restarts.
use qwen_3_8_evals.Prelude.{
  ℕ, String, Option, ◌≡◌, Bool, false, some, List, ◌==◌, if◌then◌else◌, find, any, holds,
}
use qwen_3_8_evals.Json.{Json}
use qwen_3_8_evals.VaultQwen.Types.{is_active, Store, empty}
use qwen_3_8_evals.VaultQwen.Blobs.{blob_at, artifact_at}
use qwen_3_8_evals.VaultQwen.Workers.{
  Worker, idle, assembling, losing, staged, waiting, linking, settling, replacing, relinking,
  linked, counting, deleting, sweeping, answered, Request, accept, advance,
}
use qwen_3_8_evals.VaultQwen.Uploads.{start_upload, store_chunk}
use qwen_3_8_evals.VaultQwen.Recover.{recover}

-- A number without a request yet is an `idle` thread.
pub record System : Type 0 where
  pub store : Store
  pub worker : ℕ → Worker

abbrev pub set_worker : ℕ → Worker → (ℕ → Worker) → ℕ → Worker
set_worker i w workers k = if k == i then w else workers k

abbrev pub moved : System → ℕ → Worker × Store → System
moved s i next = record { store = next.1; worker = set_worker i next.0 s.worker }

abbrev pub initial : System
initial = record { store = empty; worker = λ _. idle }

-- A thread that put a file under a digest and did not commit it yet, or that is about to unlink it.
unfoldable pub owns : ℕ → Worker → Bool
owns digest (linked j) = j.digest == digest
owns digest (sweeping _ _ _ _ left) = any (blob_at digest) left
owns digest idle = false
owns digest (assembling _) = false
owns digest (losing _) = false
owns digest (staged _) = false
owns digest (waiting _) = false
owns digest (linking _) = false
owns digest (settling _) = false
owns digest (replacing _) = false
owns digest (relinking _) = false
owns digest (counting _) = false
owns digest (deleting _) = false
owns digest (answered _) = false

-- The digest has a row in state 'active'.
abbrev pub in_use : ℕ → Store → Bool
in_use digest s = holds (λ b. is_active b.state) (find (blob_at digest) s.blobs)

-- The calls that leave blobs and artifacts alone: `start_upload` and `store_chunk`.
pub data Call : Type 0 where
  create : String → Json → Json → Json → ℕ → ℕ → Call
  store : String → ℕ → ℕ → List ℕ → Option (List ℕ) → ℕ → ℕ → Call

module _ (sha256 : List ℕ → ℕ) where
  unfoldable pub perform : Call → Store → Store
  unfolding start_upload store_chunk
  perform (create tenant name total_size chunk_size upload_id now) s =
      (start_upload tenant name total_size chunk_size upload_id now s).1
  perform (store tenant upload_id index source declared n tag) s =
      (store_chunk sha256 tenant upload_id index source declared n tag s).1

  pub data Step (s : System) : System → Type 0 where
    request : (i : ℕ) (r : Request) → s.worker i ≡ idle → Step s (moved s i (accept r s.store))
    run : (i : ℕ) (late : Bool) → Step s (moved s i (advance sha256 late (s.worker i) s.store))
    call : (c : Call) → Step s (record s { store = perform c s.store })
    restart : Step s (record { store = (recover s.store).1; worker = λ _. idle })

  pub data Run (s : System) : System → Type 0 where
    stop : Run s s
    later : {t u : System} → Run s t → Step t u → Run s u

-- The two points at which a thread acts on what it read before. The file that it takes for the residue
-- of a crash is nobody's, so that ORPHAN_SETTLE_MS was long enough; and the artifact that it is about
-- to delete is still there.
abbrev pub Current : Worker → System → Type 0
Current (replacing j) s =
    ((i : ℕ) → owns j.digest (s.worker i) ≡ false) × (in_use j.digest s.store ≡ false)
Current (deleting a) s = find (artifact_at a.id) s.store.artifacts ≡ some a
Current (linked _) s = Unit
Current (sweeping _ _ _ _ _) s = Unit
Current idle s = Unit
Current (assembling _) s = Unit
Current (losing _) s = Unit
Current (staged _) s = Unit
Current (waiting _) s = Unit
Current (linking _) s = Unit
Current (settling _) s = Unit
Current (relinking _) s = Unit
Current (counting _) s = Unit
Current (answered _) s = Unit

module _ {sha256 : List ℕ → ℕ} where
  abbrev pub CurrentStep : {s t : System} → Step sha256 s t → Type 0
  CurrentStep (request _ _ _) = Unit
  CurrentStep {s} (run i _) = Current (s.worker i) s
  CurrentStep (call _) = Unit
  CurrentStep restart = Unit

  abbrev pub CurrentRun : {s t : System} → Run sha256 s t → Type 0
  CurrentRun stop = Unit
  CurrentRun (later r step) = CurrentRun r × CurrentStep step
