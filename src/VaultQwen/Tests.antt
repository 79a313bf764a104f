-- ===== src/VaultQwen/Tests.antt =====
-- Runs of vaultdrop/qwen-v3 from an empty store, with the sum of the bytes for a digest.
mod Requests
use qwen_3_8_evals.Prelude.{
  ℕ, suc, zero, ◌+◌, ◌≤◌, String, ◌≡◌, refl, Bool, true, false, Option, none, some, List, [], ◌∷◌,
  sum, find, lookup, count, any, select, update, put, delete, without,
}
use qwen_3_8_evals.Prelude.Int.{pos}
use qwen_3_8_evals.Json.{num, str}
use qwen_3_8_evals.Text.{codes, hex_value}
use qwen_3_8_evals.Effect.{ok, ◌>>=◌, atomically}
use qwen_3_8_evals.VaultQwen.Types.{active, collecting, Artifact, Blob, Store}
use qwen_3_8_evals.VaultQwen.Claims.{text, Claim}
use qwen_3_8_evals.VaultQwen.Blobs.{artifact_at, blob_at, refers, is_present}
use qwen_3_8_evals.VaultQwen.Workers.{
  Request, finalize, delete_artifact, gc, Worker, accept, advance, sweeping, idle,
}
use qwen_3_8_evals.VaultQwen.System.{
  System, Step, request, run, call, restart, Run, stop, later, initial, create, store, CurrentRun,
  moved, perform, Call, owns,
}
use qwen_3_8_evals.VaultQwen.Valid.Runs.{run-serves, run-refcounts, run-sweeps, run-recovers}
use qwen_3_8_evals.VaultQwen.Valid.Recovered.{Settled}
use qwen_3_8_evals.VaultQwen.Recover.{recover}

abbrev hex_six : List ℕ
hex_six = codes "0000000000000000000000000000000000000000000000000000000000000006"

-- Thread `i` takes a request, or goes on, with its deadline over or not.
abbrev ask : ℕ → Request → System → System
ask i r s = moved s i (accept r s.store)

abbrev go : ℕ → Bool → System → System
go i late s = moved s i (advance sum late (s.worker i) s.store)

abbrev done : Call → System → System
done c s = record s { store = perform sum c s.store }

abbrev create_at : ℕ → Call
create_at upload_id = create "t" (str "a") (num (pos 3)) (num (pos 3)) upload_id 1

abbrev chunk_at : ℕ → Call
chunk_at upload_id = store "t" upload_id 0 (1 ∷ 2 ∷ 3 ∷ []) (some hex_six) 3 upload_id

abbrev finalize_at : ℕ → Request
finalize_at upload_id = finalize "t" upload_id (text hex_six) (some (pos 3)) (upload_id + 10) 2

abbrev uploaded : System
uploaded = done (chunk_at 1) (done (create_at 1) initial)

abbrev linked_once : System
linked_once = go 0 false (go 0 false (go 0 false (ask 0 (finalize_at 1) uploaded)))

abbrev published : System
published = go 0 false linked_once

abbrev published_run : Run sum initial published
published_run =
    later
      (later
        (later
          (later
            (later (later (later stop (call (create_at 1))) (call (chunk_at 1)))
              (request 0 (finalize_at 1) refl))
            (run 0 false))
          (run 0 false))
        (run 0 false))
      (run 0 false)

abbrev kept : Artifact
kept = record {
  id = 11;
  tenant_id = "t";
  name = "a";
  size = 3;
  sha256 = 6;
  blob_hash = 6;
  created_at = 2;
}

published-kept : find (artifact_at 11) published.store.artifacts ≡ some kept
unfolding perform advance accept find ◌>>=◌ any hex_value count lookup atomically
published-kept = refl

published_current : CurrentRun published_run
unfolding perform advance accept find ◌>>=◌ any hex_value count lookup atomically
published_current = (((((((tt, tt), tt), tt), tt), tt), tt), tt)

run-serves_example :
    (content : List ℕ) × (lookup 6 published.store.blob_files ≡ some content) × (sum content ≡ 6)
run-serves_example = run-serves sum published published_run published_current 11 kept published-kept

abbrev blob : Blob
blob = record {
  hash = 6;
  size = 3;
  refcount = 1;
  state = active;
  validated = true;
  gc_pass_id = none;
  created_at = 2;
}

published-blob : find (blob_at 6) published.store.blobs ≡ some blob
unfolding perform advance accept find ◌>>=◌ any hex_value count lookup atomically
published-blob = refl

run-refcounts_example :
    (1 ≡ count (refers 6) published.store.artifacts)
    × (is_present (lookup 6 published.store.blob_files) ≡ true)
run-refcounts_example =
    run-refcounts sum published published_run published_current 6 blob published-blob

-- The artifact is deleted by thread 1, and thread 2 begins a collection.
abbrev collecting_one : System
collecting_one = ask 2 (gc 3) (go 1 false (ask 1 (delete_artifact "t" 11) published))

abbrev collecting_run : Run sum initial collecting_one
collecting_run =
    later (later (later published_run (request 1 (delete_artifact "t" 11) refl)) (run 1 false))
      (request 2 (gc 3) refl)

collecting_current : CurrentRun collecting_run
unfolding perform advance accept find ◌>>=◌ any hex_value count lookup atomically
collecting_current = (((published_current, tt), refl), tt)

-- The row that the collection is about to remove.
abbrev unreferenced : Blob
unreferenced = record blob { refcount = 0; state = collecting; gc_pass_id = some 1 }

collecting-sweeps : collecting_one.worker 2 ≡ sweeping 1 3 1 0 (unreferenced ∷ [])
unfolding perform advance accept find ◌>>=◌ any hex_value count lookup atomically select update put
    delete without
collecting-sweeps = refl

six-swept : any (blob_at 6) (unreferenced ∷ []) ≡ true
unfolding any
six-swept = refl

six-owned : owns 6 (collecting_one.worker 2) ≡ true
unfolding owns any
six-owned = rw collecting-sweeps

run-sweeps_example :
    (is_present (lookup 6 collecting_one.store.blob_files) ≡ true)
    × (count (refers 6) collecting_one.store.artifacts ≡ 0)
    × ◌≡◌ {A = ℕ} 2 2
run-sweeps_example =
    run-sweeps sum collecting_one collecting_run collecting_current 2 2 1 3 1 0 6
      (unreferenced ∷ []) collecting-sweeps six-swept six-owned

-- A crash before the collection unlinks anything.
run-recovers_example :
    ((recover collecting_one.store).0 ≡ ok tt) × Settled (recover collecting_one.store).1
run-recovers_example = run-recovers sum collecting_one collecting_run collecting_current

-- Two uploads of the same bytes. Thread 1 finds the file that thread 0 has linked, waits for its
-- row, and counts its own artifact in it.
abbrev both_linked : System
both_linked = go 0 false (
    go 0 false
      (go 0 false (ask 0 (finalize_at 1) (done (chunk_at 2) (done (create_at 2) uploaded)))))

abbrev settling_one : System
settling_one = go 1 false (go 1 false (go 1 false (ask 1 (finalize_at 2) both_linked)))

abbrev shared : System
shared = go 1 false (go 1 false (go 0 false settling_one))

shared-counts_two : find (blob_at 6) shared.store.blobs ≡ some (record blob { refcount = 2 })
unfolding perform advance accept find ◌>>=◌ any hex_value count lookup atomically select update put
    delete without
shared-counts_two = refl

-- Two deletions of one artifact that have both read its row: each takes one from the refcount, and
-- a collection then unlinks the bytes of the other artifact.
abbrev deleted_twice : System
deleted_twice = go 4 false (
    ask 4 (gc 5) (
      go 3 false
        (go 2 false (ask 3 (delete_artifact "t" 11) (ask 2 (delete_artifact "t" 11) shared)))))

deleted_twice-loses :
    (find (artifact_at 12) deleted_twice.store.artifacts ≡ some (record kept { id = 12 }))
    × (lookup 6 deleted_twice.store.blob_files ≡ none)
unfolding perform advance accept find ◌>>=◌ any hex_value count lookup atomically select update put
    delete without
deleted_twice-loses = (refl, refl)

-- Thread 0 stops between its link and its commit for longer than the settle window: thread 1 takes
-- its file for residue, replaces it and commits; its artifact is deleted and collected; and then
-- thread 0 commits a row without a file.
abbrev replaced : System
replaced = go 1 false (go 1 false (go 1 false (go 1 false (go 1 true settling_one))))

abbrev resumed : System
resumed =
    go 0 false (
      go 3 false (go 3 false (ask 3 (gc 5) (go 2 false (ask 2 (delete_artifact "t" 12) replaced)))))

resumed-loses :
    (find (artifact_at 11) resumed.store.artifacts ≡ some kept)
    × (lookup 6 resumed.store.blob_files ≡ none)
unfolding perform advance accept find ◌>>=◌ any hex_value count lookup atomically select update put
    delete without
resumed-loses = (refl, refl)
