-- ===== src/VaultQwen/Valid/Steps.antt =====
-- One step of the threads of vaultdrop/qwen-v3.
use qwen_3_8_evals.Prelude.{ℕ, ◌≡◌, refl, Bool, false, Option, List, arith, find}
use qwen_3_8_evals.Effect.{Outcome, ok, err, fault}
use qwen_3_8_evals.VaultQwen.Types.{Upload, Store}
use qwen_3_8_evals.VaultQwen.Claims.{
  Answer, Claim, Start, replied, lost, won, rollback_finalizing, assemble, verify,
}
use qwen_3_8_evals.VaultQwen.Blobs.{Job, artifact_at}
use qwen_3_8_evals.VaultQwen.Workers.{
  Worker, idle, assembling, losing, staged, waiting, linking, settling, replacing, relinking,
  linked, counting, deleting, sweeping, answered, Request, finalize, delete_artifact, gc, accept,
  advance, assembled, lose_round, started, start_delete, found_to_delete,
}
use qwen_3_8_evals.VaultQwen.System.{
  System, owns, Current, Step, request, run, call, restart, CurrentStep,
}
use qwen_3_8_evals.VaultQwen.Valid.{StoreIsValid, IsValid, Tidy, Verified}
use qwen_3_8_evals.VaultQwen.Valid.Local.{Respects, Others, moved-IsValid}
use qwen_3_8_evals.VaultQwen.Valid.Moves.{
  quiet, try_link-Respects, try_relink-Respects, decided-Respects, wait_round-Respects,
  settle_round-Respects, replacing-Respects, linked-Respects, counting-Respects,
}
use qwen_3_8_evals.VaultQwen.Valid.Sweeps.{deleting-Respects, sweep-Respects, start_gc-Respects}
use qwen_3_8_evals.VaultQwen.Valid.Starts.{UploadsOnly, start_finalize-UploadsOnly}
use qwen_3_8_evals.VaultQwen.Valid.Calls.{perform-SameBlobs, call-IsValid}
use qwen_3_8_evals.VaultQwen.Valid.Restart.{recover-IsValid}

lose_round-quiet :
    (u : Option Upload) (late : Bool) (i h : ℕ) → owns h (lose_round u late i) ≡ false
unfolding lose_round owns
lose_round-quiet u late i h = ground arith

pub idle-owns : (h : ℕ) → owns h idle ≡ false
unfolding owns
idle-owns h = refl

module _ (sha256 : List ℕ → ℕ) where
  lose_round-Tidy : (u : Option Upload) (late : Bool) (i : ℕ) → Tidy sha256 (lose_round u late i)
  unfolding lose_round
  lose_round-Tidy u late i = ground arith

  -- What is staged has the digest that it is staged under.
  assemble-Verified :
      (c : Claim) (s : Store) (j : Job) → assemble sha256 c s ≡ ok j → Verified sha256 j
  unfolding assemble verify
  assemble-Verified c s j e = ground arith

  module _ (others : ℕ → Type 0) (s : Store) (v : StoreIsValid sha256 s) where
    assembled-Respects :
        (w : Worker) (c : Claim) (o : Outcome Answer Job)
        → assemble sha256 c s ≡ o
        → Respects sha256 others s w (assembled o c s)
    unfolding assembled owns rollback_finalizing
    assembled-Respects w c (ok j) e =
        quiet sha256 others s v w (staged j) s.uploads (λ h. refl) (assemble-Verified c s j e)
    assembled-Respects w c (err a) e = quiet sha256 others s v w (answered _) _ (λ h. refl) tt
    assembled-Respects w c (fault m) e = quiet sha256 others s v w (answered _) _ (λ h. refl) tt

  module _ (s : System) (i : ℕ) (v : IsValid sha256 s) where
    advance-Respects :
        (late : Bool) (w : Worker)
        → s.worker i ≡ w
        → Current w s
        → Tidy sha256 w
        → Respects sha256 (Others sha256 s i) s.store w (advance sha256 late w s.store)
    unfolding advance owns
    advance-Respects late idle e c t =
        quiet sha256 _ s.store v.store_valid idle idle _ (λ h. refl) tt
    advance-Respects late (answered a) e c t =
        quiet sha256 _ s.store v.store_valid _ (answered a) _ (λ h. refl) tt
    advance-Respects late (assembling k) e c t =
        assembled-Respects _ s.store v.store_valid _ k _ refl
    advance-Respects late (losing u) e c t =
        quiet sha256 _ s.store v.store_valid _ _ _ (lose_round-quiet _ late u)
          (lose_round-Tidy _ late u)
    advance-Respects late (staged j) e c t = decided-Respects sha256 _ s.store v.store_valid _ j _ t
    advance-Respects late (waiting j) e c t =
        wait_round-Respects sha256 _ s.store v.store_valid _ j _ late t
    advance-Respects late (linking j) e c t =
        try_link-Respects sha256 _ s.store v.store_valid _ j _ refl t
    advance-Respects late (settling j) e c t =
        settle_round-Respects sha256 _ s.store v.store_valid _ j _ late t
    advance-Respects late (replacing j) e c t =
        replacing-Respects sha256 _ s.store v.store_valid _ j
          (λ h e o. ground (arith, c.0 o.0, o.2)) c.1 t
    advance-Respects late (relinking j) e c t =
        try_relink-Respects sha256 _ s.store v.store_valid _ j _ refl t
    advance-Respects late (linked j) e c t =
        linked-Respects sha256 _ s.store v.store_valid j (v.held i j.digest (rw e (ground arith))) t
    advance-Respects late (counting j) e c t = counting-Respects sha256 _ s.store v.store_valid j t
    advance-Respects late (deleting a) e c t = deleting-Respects sha256 _ s.store v.store_valid a c
    advance-Respects late (sweeping pass now scanned freed left) e c t =
        sweep-Respects sha256 _ s.store v.store_valid pass now scanned freed left
          (λ h o. v.held i h (rw e o)) t

    started-Respects :
        (w : Worker) (next : Start × Store)
        → UploadsOnly s.store next.1
        → Respects sha256 (Others sha256 s i) s.store w (started next)
    unfolding owns
    started-Respects w (replied a, t) (us, e) =
        rw e (quiet sha256 _ s.store v.store_valid w (answered a) us (λ h. refl) tt)
    started-Respects w (lost u, t) (us, e) =
        rw e (quiet sha256 _ s.store v.store_valid w (losing u) us (λ h. refl) tt)
    started-Respects w (won c, t) (us, e) =
        rw e (quiet sha256 _ s.store v.store_valid w (assembling c) us (λ h. refl) tt)

    accept-Respects :
        (w : Worker) (r : Request)
        → Respects sha256 (Others sha256 s i) s.store w (accept r s.store)
    unfolding accept start_delete owns
    accept-Respects w (finalize tenant upload_id d z artifact_id now) =
        started-Respects w _
          (start_finalize-UploadsOnly tenant upload_id d z artifact_id now s.store)
    accept-Respects w (delete_artifact tenant artifact_id) =
        let found = find (artifact_at artifact_id) s.store.artifacts in
        quiet sha256 _ s.store v.store_valid w (found_to_delete tenant found) _ (λ h. ground arith)
          (ground arith)
    accept-Respects w (gc now) = start_gc-Respects sha256 _ s.store v.store_valid w now

  pub step-IsValid :
      (s t : System) (step : Step sha256 s t)
      → CurrentStep step
      → IsValid sha256 s
      → IsValid sha256 t
  step-IsValid s t (request i r e) c v = moved-IsValid sha256 s i _ v (accept-Respects s i v _ r)
  step-IsValid s t (run i late) c v =
      moved-IsValid sha256 s i _ v (advance-Respects s i v late (s.worker i) refl c (v.tidy i))
  step-IsValid s t (call k) c v = call-IsValid sha256 s _ (perform-SameBlobs sha256 k s.store) v
  step-IsValid s t restart c v = record {
    store_valid = recover-IsValid sha256 s.store v.store_valid;
    held = λ i h o. ground (arith, idle-owns h);
    single = λ i j h o p. ground (arith, idle-owns h);
    tidy = λ i. tt;
  }
