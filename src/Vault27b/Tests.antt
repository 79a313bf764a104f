-- ===== src/Vault27b/Tests.antt =====
-- Runs of vaultdrop/qwen-3-8-27b-v2 from an empty store, with the sum of the bytes for a digest.
mod Lost
mod Requests
use qwen_3_8_evals.Prelude.{
  ℕ, suc, zero, ◌+◌, ◌*◌, ◌≤◌, String, ◌≡◌, ◌⊎◌, inl, inr, refl, Bool, true, false, Option, none,
  some, List, [], ◌∷◌, sum, find, lookup, count, any, select, update, put, delete, without, arith,
  length,
}
use qwen_3_8_evals.Prelude.Int.{pos}
use qwen_3_8_evals.Json.{num, str}
use qwen_3_8_evals.Text.{codes, hex_value}
use qwen_3_8_evals.Effect.{ok, ◌>>=◌}
use qwen_3_8_evals.Vault27b.Types.{
  active, pending, deleted, Artifact, Blob, Store, empty, artifact_at, blob_at, refers, artifact_of,
}
use qwen_3_8_evals.Vault27b.Claims.{Claim}
use qwen_3_8_evals.Vault27b.Threads.{
  Request, finalize, gc, Worker, accept, advance, idle, inserting, judging, sweeping, answered,
  finalized_as, row_state, Tally,
}
use qwen_3_8_evals.Vault27b.Threads.Answered.{is_answered, drive, thread_answers}
use qwen_3_8_evals.Vault27b.Threads.Agreed.{claim_of, answer_agrees}
use qwen_3_8_evals.Vault27b.System.{
  System, Step, request, run, call, restart, Run, stop, later, initial, create, store, remove,
  CurrentRun, moved, perform, Call,
}
use qwen_3_8_evals.Vault27b.Counts.{Counted}
use qwen_3_8_evals.Vault27b.Counts.Runs.{run-counts}
use qwen_3_8_evals.Vault27b.Bytes.Runs.{Kept, run-keeps}
use qwen_3_8_evals.Vault27b.Recover.{recover}

abbrev pub hex_six : String
hex_six = "0000000000000000000000000000000000000000000000000000000000000006"

-- Thread `i` takes a request, or goes on.
abbrev pub ask : ℕ → Request → System → System
ask i r s = moved s i (accept r s.store)

abbrev pub go : ℕ → System → System
go i s = moved s i (advance sum false (s.worker i) s.store)

abbrev pub done : Call → System → System
done c s = record s { store = perform sum c s.store }

abbrev pub create_at : ℕ → Call
create_at upload_id = create "t" (str "a") (num (pos 3)) (num (pos 3)) upload_id 1

abbrev pub chunk_at : ℕ → Call
chunk_at upload_id = store "t" upload_id 0 (1 ∷ 2 ∷ 3 ∷ []) (some (codes hex_six)) 3

abbrev pub finalize_at : ℕ → Request
finalize_at upload_id = finalize "t" upload_id (str hex_six) (num (pos 3)) (upload_id + 10) 2

abbrev pub uploaded : System
uploaded = done (chunk_at 1) (done (create_at 1) initial)

-- Assembled, read and placed.
abbrev placed : System
placed = go 0 (go 0 (go 0 (ask 0 (finalize_at 1) uploaded)))

abbrev pub published : System
published = go 0 placed

abbrev pub published_run : Run sum initial published
published_run =
    later
      (later
        (later
          (later
            (later (later (later stop (call (create_at 1))) (call (chunk_at 1)))
              (request 0 (finalize_at 1) refl))
            (run 0 false))
          (run 0 false))
        (run 0 false))
      (run 0 false)

abbrev pub kept : Artifact
kept = record {
  artifact_id = 11;
  tenant_id = "t";
  upload_id = 1;
  name = "a";
  size = 3;
  sha256 = 6;
  created_at = 2;
}

published-kept : find (artifact_at 11) published.store.artifacts ≡ some kept
unfolding perform advance accept find ◌>>=◌ any hex_value count lookup
published-kept = refl

pub published_current : CurrentRun published_run
unfolding accept find perform ◌>>=◌ any hex_value count advance
published_current = (((((((tt, tt), tt), tt), tt), tt), tt), tt)

run-counts_example :
    (count (artifact_of 1) published.store.artifacts ≤ 1)
    × Counted (find (blob_at 6) published.store.blobs) (count (refers 6) published.store.artifacts)
run-counts_example = run-counts sum published published_run 1 6

run-keeps_example : (row_state 6 published.store ≡ some active) × Kept sum 6 published
run-keeps_example = run-keeps sum published published_run published_current 11 kept published-kept

abbrev times {ℓ} : {A : Type ℓ} → ℕ → A → List A
times zero a = []
times (suc n) a = a ∷ times n a

thread_answers_example :
    (is_answered
        (drive sum (times 21 (false, uploaded.store)) (accept (finalize_at 1) uploaded.store).0)
      ≡ true)
    × (is_answered (
          drive sum
            (times 1 (false, uploaded.store))
            (sweeping (record { scanned = 0; collected = 0; bytes_freed = 0 }) []))
        ≡ true)
thread_answers_example =
    thread_answers sum "t" 1 (str hex_six) (num (pos 3)) 11 2 uploaded.store
      (record { scanned = 0; collected = 0; bytes_freed = 0 }) [] (times 21 (false, uploaded.store))
      (times 1 (false, uploaded.store)) (omega arith) (omega arith)

abbrev claim : Claim
claim = record {
  upload_id = 1;
  tenant_id = "t";
  name = "a";
  size = 3;
  digest = 6;
  artifact_id = 11;
  now = 2;
  content = 1 ∷ 2 ∷ 3 ∷ [];
}

placed-inserts : (advance sum false (inserting claim 4) placed.store).0 ≡ answered (finalized_as 11)
unfolding perform advance accept find ◌>>=◌ any hex_value count lookup select update delete put
    without recover
placed-inserts = refl

claim-inserts : claim_of (inserting claim 4) ≡ some claim
unfolding claim_of
claim-inserts = refl

answer_agrees_example :
    (a : Artifact) × (find
        (artifact_of 1)
        (advance sum false (inserting claim 4) placed.store).1.artifacts
      ≡ some a)
    × (a.artifact_id ≡ 11)
answer_agrees_example =
    answer_agrees sum false (inserting claim 4) claim placed.store 11 claim-inserts placed-inserts
