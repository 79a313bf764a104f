-- ===== src/VaultQwen/Valid/Sweeps.antt =====
-- `gc_pass` and `delete_artifact` of vaultdrop/qwen-v3, against the other threads.
use qwen_3_8_evals.Prelude.{
  ℕ, suc, ◌≡◌, inl, inr, refl, Bool, true, false, some, List, [], ◌∷◌, arith, lookup-without, any,
  find, find-update, find-delete, find-select, find-Each, Distinct, Distinct-select,
}
use qwen_3_8_evals.VaultQwen.Types.{Artifact, Blob, Store}
use qwen_3_8_evals.VaultQwen.Blobs.{
  blob_at, artifact_at, unlink_blob, mark, marked, in_pass, candidates, collect, is_collected,
  is_unreferenced, counted_at, one_less, decrement_refcount, last_id,
}
use qwen_3_8_evals.VaultQwen.Workers.{
  Worker, deleting, sweeping, answered, sweep, finish_gc, remove_artifact, start_gc,
}
use qwen_3_8_evals.VaultQwen.Claims.{deleted}
use qwen_3_8_evals.VaultQwen.System.{owns, in_use}
use qwen_3_8_evals.VaultQwen.Valid.{Held, StoreIsValid, Begun}
use qwen_3_8_evals.VaultQwen.Valid.Local.{Respects}
use qwen_3_8_evals.VaultQwen.Valid.Stores.{
  unlink-IsValid, remove_artifact-IsValid, mark-IsValid, collect-IsValid,
}
use qwen_3_8_evals.VaultQwen.Valid.Moves.{quiet}

module _ (sha256 : List ℕ → ℕ) (others : ℕ → Type 0) (s : Store) (v : StoreIsValid sha256 s) where
  pub deleting-Respects :
      (a : Artifact)
      → find (artifact_at a.id) s.artifacts ≡ some a
      → Respects sha256 others s (deleting a) (answered deleted, remove_artifact a s)
  unfolding owns remove_artifact decrement_refcount
  deleting-Respects a e = record {
    store_valid = remove_artifact-IsValid sha256 a s e v;
    own = λ h o. cc;
    gain = λ h o. cc;
    frame = λ h o n k. ground (
      arith,
      k.0,
      k.1,
      find-update (λ b. b.hash) h (counted_at a.blob_hash) one_less s.blobs (λ b. refl),
    );
    tidy = tt;
  }

  finish_gc-Respects :
      (w : Worker) (held : Bool) (pass now scanned freed : ℕ)
      → Respects sha256 others s w (finish_gc held pass now scanned freed s)
  unfolding owns finish_gc collect
  finish_gc-Respects w true pass now scanned freed =
      quiet sha256 others s v w (answered _) s.uploads (λ h. refl) tt
  finish_gc-Respects w false pass now scanned freed = record {
    store_valid = collect-IsValid sha256 pass scanned freed now s v;
    own = λ h o. cc;
    gain = λ h o. cc;
    frame = λ h o n k.
        ground (arith, k.0, k.1, find-delete (λ b. b.hash) h (is_collected pass) s.blobs v.hashes);
    tidy = tt;
  }

  pub sweep-Respects :
      (pass now scanned freed : ℕ) (left : List Blob)
      → ((h : ℕ) → any (blob_at h) left ≡ true → Held h s)
      → Distinct (λ b. b.hash) left
      → Respects sha256 others s
          (sweeping pass now scanned freed left)
          (sweep pass now scanned freed left s)
  unfolding owns sweep unlink_blob any
  sweep-Respects pass now scanned freed [] mine d = finish_gc-Respects _ _ pass now scanned freed
  sweep-Respects pass now scanned freed (b ∷ rest) mine d = record {
    store_valid = unlink-IsValid sha256 b.hash s (ground (arith, mine b.hash)) v;
    own = λ h o. ground (arith, mine h, lookup-without b.hash h s.blob_files);
    gain = λ h o. inl (ground arith);
    frame = λ h o n k. ground (arith, k.0, k.1, lookup-without b.hash h s.blob_files);
    tidy = d.1;
  }

  -- The rows of a new pass are those that it marked: they were active, and have their files.
  marked-Held :
      (now h : ℕ)
      → any (blob_at h) (candidates (suc (last_id s.passes)) (mark now s)) ≡ true
      → (in_use h s ≡ true) × Held h (mark now s)
  unfolding candidates mark
  marked-Held now h e =
      let pass = suc (last_id s.passes) in
      let same = find-update (λ b. b.hash) h is_unreferenced (marked pass) s.blobs (λ b. refl) in
      ground (
        arith,
        same,
        v.sound h,
        find-select (λ b. b.hash) h (in_pass pass) (mark now s).blobs
            (mark-IsValid sha256 now s v).hashes e,
        find-Each (λ b. b.hash) (λ b. Begun (last_id s.passes) b.gc_pass_id) h s.blobs v.begun,
      )

  pub start_gc-Respects : (w : Worker) (now : ℕ) → Respects sha256 others s w (start_gc now s)
  unfolding owns start_gc candidates mark
  start_gc-Respects w now = record {
    store_valid = mark-IsValid sha256 now s v;
    own = λ h o. (marked-Held now h o).1;
    gain = λ h o. inr (λ held. ground (arith, held.1, (marked-Held now h o).0));
    frame = λ h o n k. ground (
      arith,
      k.0,
      k.1,
      find-update (λ b. b.hash) h is_unreferenced (marked (suc (last_id s.passes))) s.blobs
          (λ b. refl),
    );
    tidy = Distinct-select (λ b. b.hash) _ _ (mark-IsValid sha256 now s v).hashes;
  }
