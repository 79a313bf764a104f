-- ===== src/Vault27b/Counts/Runs.antt =====
-- The tables of vaultdrop/qwen-3-8-27b-v2 in any run.
use qwen_3_8_evals.Prelude.{
  ℕ, ◌≤◌, ◌≡◌, refl, Bool, true, false, Option, none, some, List, [], ◌∷◌, arith, count, find, any,
  update, find-update, find-delete, Distinct, Distinct-update, Distinct-delete,
}
use qwen_3_8_evals.Effect.{Outcome, ok, err, fault}
use qwen_3_8_evals.Vault27b.Types.{
  BlobState, Artifact, Blob, Store, is_deleted, artifact_of, refers, blob_at,
}
use qwen_3_8_evals.Vault27b.Claims.{Claim}
use qwen_3_8_evals.Vault27b.Transactions.{Integrity}
use qwen_3_8_evals.Vault27b.Threads.{
  Worker, idle, assembling, reading, placing, inserting, recovering, replacing, resurrecting,
  yielding, selecting, sweeping, quarantining, judging, restoring, answered, Request, finalize, gc,
  accept, advance, Tally, inserted, recovered, resurrected, place_held, quarantine, sweep,
}
use qwen_3_8_evals.Vault27b.Recover.{recover, is_misfit}
use qwen_3_8_evals.Vault27b.System.{
  System, Call, create, store, remove, perform, Step, request, run, call, restart, Run, stop, later,
  initial,
}
use qwen_3_8_evals.Vault27b.Counts.{
  StoreIsValid, Counted, Leaves, LeavesIf, mark-IsValid, bury-IsValid, delete_artifact-IsValid,
  claim_insert-IsValid, claim_recover-IsValid, claim_resurrect-IsValid,
}
use qwen_3_8_evals.Vault27b.Counts.Calls.{SameBlobs, create-SameBlobs, put_chunk-SameBlobs}

same-IsValid : (s t : Store) → SameBlobs s t → StoreIsValid s → StoreIsValid t
same-IsValid s t same v = record {
  counted = λ h. rw (same.artifacts, same.blobs) (v.counted h);
  ids = rw same.artifacts v.ids;
  uploads = rw same.artifacts v.uploads;
  hashes = rw same.blobs v.hashes;
}

pub recover-IsValid : (s : Store) → StoreIsValid s → StoreIsValid (recover s)
unfolding recover
recover-IsValid s v = record {
  counted = λ h. ground (
    arith,
    v.counted h,
    find-delete (λ b. b.content_hash) h (λ b. is_deleted b.state)
        (update (is_misfit s.blob_files) (λ b. record b { validated = false }) s.blobs)
        (Distinct-update (λ b. b.content_hash) (is_misfit s.blob_files)
          (λ b. record b { validated = false }) s.blobs (λ b. refl) v.hashes),
    find-update (λ b. b.content_hash) h (is_misfit s.blob_files)
        (λ b. record b { validated = false }) s.blobs (λ b. refl),
  );
  ids = v.ids;
  uploads = v.uploads;
  hashes =
      Distinct-delete (λ b. b.content_hash) (λ b. is_deleted b.state) _
        (Distinct-update (λ b. b.content_hash) (is_misfit s.blob_files)
          (λ b. record b { validated = false }) s.blobs (λ b. refl) v.hashes);
}

inserted-IsValid :
    (r : Outcome Integrity Store) (c : Claim) (left : ℕ) (s : Store)
    → StoreIsValid s
    → Leaves StoreIsValid r
    → StoreIsValid (inserted r c left s).1
unfolding inserted
inserted-IsValid (ok t) c left s v w = w
inserted-IsValid (err _) c left s v w = v
inserted-IsValid (fault _) c left s v w = v

resurrected-IsValid :
    (r : Outcome Integrity Store) (c : Claim) (left : ℕ) (s : Store)
    → StoreIsValid s
    → Leaves StoreIsValid r
    → StoreIsValid (resurrected r c left s).1
unfolding resurrected
resurrected-IsValid (ok t) c left s v w = w
resurrected-IsValid (err _) c left s v w = v
resurrected-IsValid (fault _) c left s v w = v

recovered-IsValid :
    (r : Outcome Integrity (Option Store)) (c : Claim) (held : Bool) (left : ℕ) (s : Store)
    → StoreIsValid s
    → LeavesIf StoreIsValid r
    → StoreIsValid (recovered r c held left s).1
unfolding recovered
recovered-IsValid (ok (some t)) c held left s v w = w
recovered-IsValid (ok none) c held left s v w = v
recovered-IsValid (err _) c held left s v w = v
recovered-IsValid (fault _) c held left s v w = v

place_held-IsValid :
    (c : Claim) (held : Bool) (s : Store) → StoreIsValid s → StoreIsValid (place_held c held s)
unfolding place_held
place_held-IsValid c true s v = record {
  counted = v.counted;
  ids = v.ids;
  uploads = v.uploads;
  hashes = v.hashes;
}
place_held-IsValid c false s v = v

quarantine-IsValid :
    (o : Option (List ℕ)) (t : Tally) (b : Blob) (seen : Option BlobState) (rest : List Blob)
    (s : Store)
    → StoreIsValid s
    → StoreIsValid (quarantine o t b seen rest s).1
unfolding quarantine
quarantine-IsValid none t b seen rest s v = v
quarantine-IsValid (some content) t b seen rest s v = record {
  counted = v.counted;
  ids = v.ids;
  uploads = v.uploads;
  hashes = v.hashes;
}

sweep-IsValid :
    (busy : Bool) (t : Tally) (left : List Blob) (s : Store)
    → StoreIsValid s
    → StoreIsValid (sweep busy t left s).1
unfolding sweep
sweep-IsValid busy t [] s v = v
sweep-IsValid true t (b ∷ rest) s v = v
sweep-IsValid false t (b ∷ rest) s v = bury-IsValid b.content_hash s v

module _ (sha256 : List ℕ → ℕ) where
  pub advance-IsValid :
      (busy : Bool) (w : Worker) (s : Store)
      → StoreIsValid s
      → StoreIsValid (advance sha256 busy w s).1
  unfolding advance
  advance-IsValid busy idle s v = v
  advance-IsValid busy (assembling o) s v = v
  advance-IsValid busy (reading c held left) s v = v
  advance-IsValid busy (placing c held left) s v = place_held-IsValid c held s v
  advance-IsValid true (inserting c left) s v = v
  advance-IsValid false (inserting c left) s v =
      inserted-IsValid _ c left s v (claim_insert-IsValid c s v)
  advance-IsValid true (recovering c held left) s v = v
  advance-IsValid false (recovering c held left) s v =
      recovered-IsValid _ c held left s v (claim_recover-IsValid c s v)
  advance-IsValid busy (replacing c held left) s v = place_held-IsValid c held s v
  advance-IsValid true (resurrecting c left) s v = v
  advance-IsValid false (resurrecting c left) s v =
      resurrected-IsValid _ c left s v (claim_resurrect-IsValid c s v)
  advance-IsValid busy (yielding c held left) s v = v
  advance-IsValid busy selecting s v = v
  advance-IsValid busy (sweeping t left) s v = sweep-IsValid busy t left s v
  advance-IsValid busy (quarantining t b seen rest) s v = quarantine-IsValid _ t b seen rest s v
  advance-IsValid busy (judging t b seen content rest) s v = v
  advance-IsValid busy (restoring t b content rest) s v = record {
    counted = v.counted;
    ids = v.ids;
    uploads = v.uploads;
    hashes = v.hashes;
  }
  advance-IsValid busy (answered a) s v = v

  pub accept-IsValid : (r : Request) (s : Store) → StoreIsValid s → StoreIsValid (accept r s).1
  unfolding accept
  accept-IsValid (finalize _ _ _ _ _ _) s v = v
  accept-IsValid gc s v = mark-IsValid s v

  pub perform-IsValid : (c : Call) (s : Store) → StoreIsValid s → StoreIsValid (perform sha256 c s)
  unfolding perform
  perform-IsValid (create tenant name total_size chunk_size upload_id now) s v =
      same-IsValid s _ (create-SameBlobs tenant name total_size chunk_size upload_id now s) v
  perform-IsValid (store tenant upload_id index source declared n) s v =
      same-IsValid s _ (put_chunk-SameBlobs sha256 tenant upload_id index source declared n s) v
  perform-IsValid (remove tenant artifact_id) s v = delete_artifact-IsValid tenant artifact_id s v

  step-IsValid : (s t : System) → Step sha256 s t → StoreIsValid s.store → StoreIsValid t.store
  step-IsValid s t (request i r _) v = accept-IsValid r s.store v
  step-IsValid s t (run i busy) v = advance-IsValid busy (s.worker i) s.store v
  step-IsValid s t (call c) v = perform-IsValid c s.store v
  step-IsValid s t restart v = recover-IsValid s.store v

  pub run-IsValid : (t : System) → Run sha256 initial t → StoreIsValid t.store
  unfolding find count
  run-IsValid t stop = record { counted = λ h. refl; ids = tt; uploads = tt; hashes = tt }
  run-IsValid t (later {t = u} r step) = step-IsValid u t step (run-IsValid u r)

  counted_once :
      (u : ℕ) (arts : List Artifact)
      → any (artifact_of u) arts ≡ false
      → count (artifact_of u) arts ≡ 0
  unfolding any count
  counted_once u [] e = refl
  counted_once u (a ∷ arts) e = ground (arith, counted_once u arts)

  pub Distinct-once :
      (u : ℕ) (arts : List Artifact)
      → Distinct (λ a. a.upload_id) arts
      → count (artifact_of u) arts ≤ 1
  unfolding count
  Distinct-once u [] d = omega arith
  Distinct-once u (a ∷ arts) d = ground (arith, counted_once u arts, Distinct-once u arts d.1)

  -- In any interleaving of uploads, finalizations, deletions, garbage collections and restarts from an
  -- empty store: an upload has at most one artifact; a digest with artifacts has a row, which is active and
  -- has their number as its refcount; and a row that is marked or a tombstone has refcount 0.
  pub run-counts :
      (t : System)
      → Run sha256 initial t
      → (upload_id digest : ℕ)
      → (count (artifact_of upload_id) t.store.artifacts ≤ 1)
        × Counted (find (blob_at digest) t.store.blobs) (count (refers digest) t.store.artifacts)
  run-counts t r upload_id digest = (
    Distinct-once upload_id t.store.artifacts (run-IsValid t r).uploads,
    (run-IsValid t r).counted digest,
  )
