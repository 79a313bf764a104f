-- ===== src/Vault27b/Bytes/Steps.antt =====
-- A step of a run of vaultdrop/qwen-3-8-27b-v2, and the bytes of its blobs.
use qwen_3_8_evals.Prelude.{
  ℕ, ◌≡◌, inl, inr, refl, Bool, true, false, Option, none, some, List, [], ◌∷◌, arith, lookup, find,
  any-find, Dict, find-update, find-delete, Distinct-update, if◌then◌else◌, update, Option-cases,
  any-update, String,
}
use qwen_3_8_evals.Vault27b.Types.{
  ApiError, BlobState, active, pending, deleted, Artifact, Blob, Store, artifact_of, is_deleted,
  blob_at,
}
use qwen_3_8_evals.Effect.{Outcome, ok, err, fault}
use qwen_3_8_evals.Vault27b.Claims.{
  Order, Claim, Begun, ordered, existing, begin_finalize, assemble, check_content,
}
use qwen_3_8_evals.Vault27b.Transactions.{
  claim_insert, claim_recover, claim_resurrect, delete_artifact, released, artifact_owned,
}
use qwen_3_8_evals.Vault27b.Threads.{
  Worker, idle, assembling, reading, placing, inserting, recovering, replacing, resurrecting,
  yielding, selecting, sweeping, quarantining, judging, restoring, answered, Request, finalize, gc,
  accept, advance, assembled, attempt, decided, yielded, started, failed, row_state,
}
use qwen_3_8_evals.Vault27b.Recover.{recover, keep_files, is_kept, is_misfit}
use qwen_3_8_evals.Vault27b.System.{
  System, quarantines, Available, Current, Call, create, store, remove, perform, Step, request, run,
  call, restart, CurrentStep,
}
use qwen_3_8_evals.Vault27b.Counts.{StoreIsValid}
use qwen_3_8_evals.Vault27b.Counts.Calls.{SameBlobs, create-SameBlobs, put_chunk-SameBlobs}
use qwen_3_8_evals.Vault27b.Counts.Runs.{
  advance-IsValid, perform-IsValid, accept-IsValid, recover-IsValid,
}
use qwen_3_8_evals.Vault27b.Bytes.{has_row, usable, Tidy, Ready, IsValid, Tidy-Frame}
use qwen_3_8_evals.Vault27b.Bytes.Local.{Respects, Given, quiet, moved-IsValid}
use qwen_3_8_evals.Vault27b.Bytes.Claims.{
  claim_insert-Publishes, claim_recover-Publishes, claim_resurrect-Publishes, inserted-Respects,
  recovered-Respects, resurrected-Respects, place-Respects, place-Ready, attempt-Tidy,
}
use qwen_3_8_evals.Vault27b.Bytes.Sweeps.{
  mark-Respects, select-Respects, sweep-Respects, quarantine-Respects, judged-Respects,
  restore-Respects,
}

module _ (sha256 : List ℕ → ℕ) where
  assembled-Tidy :
      (content : Option (List ℕ)) (o : Order) (s : Store)
      → Tidy sha256 s (assembled (check_content sha256 content o))
  unfolding assembled check_content
  assembled-Tidy none o s = tt
  assembled-Tidy (some content) o s = ground arith

  decided-Tidy :
      (state : Option BlobState) (c : Claim) (held : Bool) (left : ℕ) (s : Store)
      → row_state c.digest s ≡ state
      → Ready sha256 c held s
      → Tidy sha256 s (decided state c held left)
  unfolding decided row_state
  decided-Tidy none c held left s e r = r
  decided-Tidy (some active) c held left s e r = r
  decided-Tidy (some pending) c held left s e r = r
  decided-Tidy (some deleted) c held left s e r =
      (r, ground (arith, e, any-find (λ b. b.content_hash) c.digest s.blobs))

  started-Tidy : (b : Outcome ApiError Begun) (s : Store) → Tidy sha256 s (started b)
  started-Tidy (ok (ordered o)) s = tt
  started-Tidy (ok (existing i)) s = tt
  started-Tidy (err e) s = tt
  started-Tidy (fault m) s = tt

  module _ (s : System) (i : ℕ) (v : IsValid sha256 s) where
    abbrev Av : ℕ → Type 0
    Av h = Available h s

    given : Given sha256 Av s.store
    given = record { addressed = v.addressed; available = v.available; there = λ h p. inl p }

    yielded-Respects :
        (c : Claim) (held : Bool) (left : ℕ) (a : Option Artifact)
        → Ready sha256 c held s.store
        → Respects sha256 Av s.store (yielding c held left) (yielded a c held left, s.store)
    unfolding yielded quarantines
    yielded-Respects c held left (some a) r =
        quiet sha256 Av s.store (yielding c held left) (answered _) given (λ h. refl) tt
    yielded-Respects c held left none r =
        quiet sha256 Av s.store (yielding c held left) (attempt c held left) given (λ h. refl)
          (attempt-Tidy sha256 Av s.store given c held left r)

    advance-Respects :
        (busy : Bool) (w : Worker)
        → Tidy sha256 s.store w
        → Current w s
        → Respects sha256 Av s.store w (advance sha256 busy w s.store)
    unfolding advance quarantines assemble
    advance-Respects busy idle t c = quiet sha256 Av s.store idle idle given (λ h. refl) tt
    advance-Respects busy (assembling o) t c =
        quiet sha256 Av s.store (assembling o) (assembled (assemble sha256 o s.store)) given
          (λ h. refl) (assembled-Tidy _ o s.store)
    advance-Respects busy (reading k held left) t c =
        quiet sha256 Av s.store (reading k held left)
          (decided (row_state k.digest s.store) k held left) given (λ h. refl)
          (decided-Tidy _ k held left s.store refl t)
    advance-Respects busy (placing k held left) t c =
        place-Respects sha256 Av s.store given k held (placing k held left) (inserting k left) t.0
          (λ h. refl) (place-Ready sha256 Av s.store given k held t)
    advance-Respects true (inserting k left) t c =
        quiet sha256 Av s.store (inserting k left) failed given (λ h. refl) tt
    advance-Respects false (inserting k left) t c =
        inserted-Respects sha256 Av s.store given k left (claim_insert k s.store) t
          (claim_insert-Publishes k s.store)
    advance-Respects true (recovering k held left) t c =
        quiet sha256 Av s.store (recovering k held left) failed given (λ h. refl) tt
    advance-Respects false (recovering k held left) t c =
        recovered-Respects sha256 Av s.store given k held left (claim_recover k s.store) t
          (claim_recover-Publishes k s.store v.counts)
    advance-Respects busy (replacing k held left) t c =
        place-Respects sha256 Av s.store given k held (replacing k held left) (resurrecting k left)
          t.0.0 (λ h. refl) (place-Ready sha256 Av s.store given k held t.0)
    advance-Respects true (resurrecting k left) t c =
        quiet sha256 Av s.store (resurrecting k left) failed given (λ h. refl) tt
    advance-Respects false (resurrecting k left) t c =
        resurrected-Respects sha256 Av s.store given k left (claim_resurrect k s.store) t c
          (claim_resurrect-Publishes k s.store v.counts)
    advance-Respects busy (yielding k held left) t c =
        yielded-Respects k held left (find (artifact_of k.upload_id) s.store.artifacts) t
    advance-Respects busy selecting t c = select-Respects sha256 Av s.store given _
    advance-Respects busy (sweeping t left) l c =
        sweep-Respects sha256 Av s.store given busy t left l
    advance-Respects busy (quarantining t b seen rest) l c =
        quarantine-Respects sha256 Av s.store given (lookup b.content_hash s.store.blob_files) t b
          seen rest refl l.0 l.1
    advance-Respects busy (judging t b seen content rest) l c = rw c.0 (
        judged-Respects sha256 Av s.store given (row_state b.content_hash s.store) t b seen content
          rest refl c.1 l)
    advance-Respects busy (restoring t b content rest) l c =
        restore-Respects sha256 Av s.store given t b content rest l
    advance-Respects busy (answered a) t c =
        quiet sha256 Av s.store (answered a) (answered a) given (λ h. refl) tt

    accept-Respects :
        (w : Worker) (r : Request)
        → ((h : ℕ) → quarantines h w ≡ false)
        → Respects sha256 Av s.store w (accept r s.store)
    unfolding accept
    accept-Respects w (finalize tenant upload_id sha size artifact_id now) q =
        quiet sha256 Av s.store w
          (started (begin_finalize tenant upload_id sha size artifact_id now s.store)) given q
          (started-Tidy _ s.store)
    accept-Respects w gc q = mark-Respects sha256 Av s.store given w q

  keep_files-lookup :
      (h : ℕ) (bs : List Blob) (files : Dict (List ℕ))
      → lookup h (keep_files bs files)
        ≡ (if is_kept (find (blob_at h) bs) then lookup h files else none)
  unfolding keep_files lookup
  keep_files-lookup h bs [] = ground arith
  keep_files-lookup h bs ((k, content) ∷ files) = ground (arith, keep_files-lookup h bs files)

  abbrev unvalidated : Blob → Blob
  unvalidated b = record b { validated = false }

  -- What `recover` does to the row and to the file of a digest.
  recover-usable : (h : ℕ) (s : Store) → StoreIsValid s → usable h (recover s) ≡ usable h s
  unfolding recover
  recover-usable h s v = ground (
    arith,
    find-delete (λ b. b.content_hash) h (λ b. is_deleted b.state)
        (update (is_misfit s.blob_files) unvalidated s.blobs)
        (Distinct-update (λ b. b.content_hash) (is_misfit s.blob_files) unvalidated s.blobs
          (λ b. refl) v.hashes),
    find-update (λ b. b.content_hash) h (is_misfit s.blob_files) unvalidated s.blobs (λ b. refl),
  )

  recover-lookup :
      (h : ℕ) (s : Store)
      → lookup h (recover s).blob_files ≡ (if usable h s then lookup h s.blob_files else none)
  unfolding recover
  recover-lookup h s = ground (arith, keep_files-lookup h s.blobs s.blob_files)

  idle-quarantines : (h : ℕ) → quarantines h idle ≡ false
  unfolding quarantines
  idle-quarantines h = refl

  restart-Available :
      (s : System)
      → CurrentStep {sha256 = sha256} {s = s} restart
      → IsValid sha256 s
      → (h : ℕ) → usable h (recover s.store) ≡ true
      → Available h (record { store = recover s.store; worker = λ _. idle })
  restart-Available s c v h e =
      elim (v.available h (ground (arith, e, recover-usable h s.store v.counts))) [
        | inl p ↦
            inl (ground (arith, p, e, recover-usable h s.store v.counts, recover-lookup h s.store))
        | inr (j, q) ↦ ground (arith, e, recover-usable h s.store v.counts, c j h q)
      ]

  restart-IsValid :
      (s : System)
      → CurrentStep {sha256 = sha256} {s = s} restart
      → IsValid sha256 s
      → IsValid sha256 (record { store = recover s.store; worker = λ _. idle })
  restart-IsValid s c v = record {
    counts = recover-IsValid s.store v.counts;
    addressed = λ h content e. ground (arith, e, v.addressed h content, recover-lookup h s.store);
    available = restart-Available s c v;
    tidy = λ i. tt;
  }

  -- A request that leaves the files of blobs, and makes no digest usable.
  call-IsValid :
      (s : System) (t : Store)
      → StoreIsValid t
      → t.blob_files ≡ s.store.blob_files
      → ((h : ℕ) → has_row h t ≡ has_row h s.store)
      → ((h : ℕ) → usable h t ≡ usable h s.store)
      → IsValid sha256 s
      → IsValid sha256 (record s { store = t })
  call-IsValid s t counts files rows same v = record {
    counts = counts;
    addressed = λ h content e. v.addressed h content (rw files at e);
    available = λ h e. elim (v.available h (ground (arith, e, same h))) [
      | inl p ↦ inl (rw files p)
      | inr q ↦ inr q
    ];
    tidy = λ i.
        Tidy-Frame sha256 s.store t (s.worker i)
          (record { rows = λ h e. ground (arith, e, rows h); files = λ h e p. rw files p })
          (v.tidy i);
  }

  delete_artifact-files :
      (tenant : String) (artifact_id : ℕ) (s : Store)
      → (delete_artifact tenant artifact_id s).1.blob_files ≡ s.blob_files
  unfolding delete_artifact
  delete_artifact-files tenant artifact_id s = ground arith

  delete_artifact-rows :
      (tenant : String) (artifact_id : ℕ) (s : Store) (h : ℕ)
      → has_row h (delete_artifact tenant artifact_id s).1 ≡ has_row h s
  unfolding delete_artifact
  delete_artifact-rows tenant artifact_id s h =
      elim (Option-cases (find (artifact_owned tenant artifact_id) s.artifacts)) [
        | inl e ↦ ground (arith, e)
        | inr (a, e) ↦ ground (
          arith,
          e,
          any-update (λ b. b.content_hash) h (blob_at a.sha256) released s.blobs (λ b. refl),
        )
      ]

  delete_artifact-usable :
      (tenant : String) (artifact_id : ℕ) (s : Store) (h : ℕ)
      → usable h (delete_artifact tenant artifact_id s).1 ≡ usable h s
  unfolding delete_artifact
  delete_artifact-usable tenant artifact_id s h =
      elim (Option-cases (find (artifact_owned tenant artifact_id) s.artifacts)) [
        | inl e ↦ ground (arith, e)
        | inr (a, e) ↦ ground (
          arith,
          e,
          find-update (λ b. b.content_hash) h (blob_at a.sha256) released s.blobs (λ b. refl),
        )
      ]

  same-IsValid :
      (s : System) (t : Store)
      → StoreIsValid t
      → SameBlobs s.store t
      → IsValid sha256 s
      → IsValid sha256 (record s { store = t })
  same-IsValid s t counts same v =
      call-IsValid s t counts same.blob_files (λ h. rw same.blobs) (λ h. rw same.blobs) v

  perform-call :
      (s : System) (c : Call)
      → IsValid sha256 s
      → IsValid sha256 (record s { store = perform sha256 c s.store })
  unfolding perform
  perform-call s (create tenant name total_size chunk_size upload_id now) v =
      same-IsValid s _
        (perform-IsValid sha256 (create tenant name total_size chunk_size upload_id now) s.store
          v.counts)
        (create-SameBlobs tenant name total_size chunk_size upload_id now s.store) v
  perform-call s (store tenant upload_id index source declared n) v =
      same-IsValid s _
        (perform-IsValid sha256 (store tenant upload_id index source declared n) s.store v.counts)
        (put_chunk-SameBlobs sha256 tenant upload_id index source declared n s.store) v
  perform-call s (remove tenant artifact_id) v =
      call-IsValid s _ (perform-IsValid sha256 (remove tenant artifact_id) s.store v.counts)
        (delete_artifact-files tenant artifact_id s.store)
        (delete_artifact-rows tenant artifact_id s.store)
        (delete_artifact-usable tenant artifact_id s.store) v

  pub step-IsValid :
      (s t : System) (step : Step sha256 s t)
      → CurrentStep step
      → IsValid sha256 s
      → IsValid sha256 t
  step-IsValid s t (request i r e) c v =
      moved-IsValid sha256 s i (accept r s.store) v
        (accept-Respects s i v (s.worker i) r (λ h. rw e (idle-quarantines h)))
        (accept-IsValid sha256 r s.store v.counts)
  step-IsValid s t (run i busy) c v =
      moved-IsValid sha256 s i (advance sha256 busy (s.worker i) s.store) v
        (advance-Respects s i v busy (s.worker i) (v.tidy i) c)
        (advance-IsValid sha256 busy (s.worker i) s.store v.counts)
  step-IsValid s t (call k) c v = perform-call s k v
  step-IsValid s t restart c v = restart-IsValid s c v
