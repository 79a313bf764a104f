-- ===== src/VaultQwen/Valid/Moves.antt =====
-- Each move of a finalizer of vaultdrop/qwen-v3, against the other threads.
use qwen_3_8_evals.Prelude.{
  ℕ, ◌≡◌, inl, inr, refl, Bool, true, false, Option, none, some, List, arith, ◌==◌, lookup,
  lookup-put, lookup-without, find, find-update, Bool-cases,
}
use qwen_3_8_evals.VaultQwen.Types.{BlobState, active, collecting, Upload, Store}
use qwen_3_8_evals.VaultQwen.Claims.{rollback_finalizing}
use qwen_3_8_evals.VaultQwen.Blobs.{
  Job, is_present, link_blob, unlink_blob, new, increment, insert_blob, insert_artifact,
  finish_upload, increment_blob, active_at, one_more,
}
use qwen_3_8_evals.VaultQwen.Workers.{
  Worker, linked, linking, relinking, counting, staged, waiting, settling, replacing, answered,
  decided, wait_round, settle_round, try_link, try_relink, commit, conclude,
}
use qwen_3_8_evals.VaultQwen.System.{owns, in_use}
use qwen_3_8_evals.VaultQwen.Valid.{Held, StoreIsValid, Tidy, Verified}
use qwen_3_8_evals.VaultQwen.Valid.Local.{Respects}
use qwen_3_8_evals.VaultQwen.Valid.Stores.{
  link-IsValid, unlink-IsValid, publish_new-IsValid, publish_increment-IsValid,
}
use qwen_3_8_evals.VaultQwen.Valid.Commits.{commit-new_cases, commit-increment_cases}

module _ (sha256 : List ℕ → ℕ) (others : ℕ → Type 0) (s : Store) (v : StoreIsValid sha256 s) where
  -- A thread that owns nothing afterwards, and changes the uploads at most.
  pub quiet :
      (w w' : Worker) (us : List Upload)
      → ((h : ℕ) → owns h w' ≡ false)
      → Tidy sha256 w'
      → Respects sha256 others s w (w', record s { uploads = us })
  quiet w w' us owns_none t = record {
    store_valid = record {
      sound = v.sound;
      addressed = v.addressed;
      ids = v.ids;
      hashes = v.hashes;
      begun = v.begun;
    };
    own = λ h o. ground (arith, owns_none h);
    gain = λ h o. ground (arith, owns_none h);
    frame = λ h o n held. held;
    tidy = t;
  }

  link_now :
      (w : Worker) (j : Job)
      → is_present (lookup j.digest s.blob_files) ≡ false
      → Verified sha256 j
      → Respects sha256 others s w (linked j, link_blob j s)
  unfolding owns link_blob
  link_now w j gone t = record {
    store_valid = link-IsValid sha256 j s t v;
    own = λ h o. ground (arith, lookup-put j.digest h j.content s.blob_files, v.sound h);
    gain = λ h o. inr (λ held. ground (arith, held.0));
    frame =
        λ h o n held. ground (arith, held.0, held.1, lookup-put j.digest h j.content s.blob_files);
    tidy = t;
  }

  pub try_link-Respects :
      (w : Worker) (j : Job) (there : Bool)
      → is_present (lookup j.digest s.blob_files) ≡ there
      → Verified sha256 j
      → Respects sha256 others s w (try_link there j s)
  unfolding try_link owns
  try_link-Respects w j true e t = quiet w (settling j) s.uploads (λ h. refl) t
  try_link-Respects w j false e t = link_now w j e t

  pub try_relink-Respects :
      (w : Worker) (j : Job) (there : Bool)
      → is_present (lookup j.digest s.blob_files) ≡ there
      → Verified sha256 j
      → Respects sha256 others s w (try_relink there j s)
  unfolding try_relink owns rollback_finalizing
  try_relink-Respects w j true e t = quiet w (answered _) _ (λ h. refl) tt
  try_relink-Respects w j false e t = link_now w j e t

  pub decided-Respects :
      (w : Worker) (j : Job) (state : Option BlobState)
      → Verified sha256 j
      → Respects sha256 others s w (decided state j, s)
  unfolding owns
  decided-Respects w j none t = quiet w (linking j) s.uploads (λ h. refl) t
  decided-Respects w j (some active) t = quiet w (counting j) s.uploads (λ h. refl) t
  decided-Respects w j (some collecting) t = quiet w (waiting j) s.uploads (λ h. refl) t

  pub wait_round-Respects :
      (w : Worker) (j : Job) (state : Option BlobState) (late : Bool)
      → Verified sha256 j
      → Respects sha256 others s w (wait_round state late j s)
  unfolding wait_round owns rollback_finalizing
  wait_round-Respects w j none late t = quiet w (linking j) s.uploads (λ h. refl) t
  wait_round-Respects w j (some _) true t = quiet w (answered _) _ (λ h. refl) tt
  wait_round-Respects w j (some _) false t = quiet w (waiting j) s.uploads (λ h. refl) t

  pub settle_round-Respects :
      (w : Worker) (j : Job) (state : Option BlobState) (late : Bool)
      → Verified sha256 j
      → Respects sha256 others s w (settle_round state late j, s)
  unfolding settle_round owns
  settle_round-Respects w j (some active) late t = quiet w (counting j) s.uploads (λ h. refl) t
  settle_round-Respects w j (some collecting) late t = quiet w (settling j) s.uploads (λ h. refl) t
  settle_round-Respects w j none true t = quiet w (replacing j) s.uploads (λ h. refl) t
  settle_round-Respects w j none false t = quiet w (settling j) s.uploads (λ h. refl) t

  -- The residue of a crash is nobody's.
  pub replacing-Respects :
      (w : Worker) (j : Job)
      → ((h : ℕ) → j.digest == h ≡ true → others h → ⊥)
      → in_use j.digest s ≡ false
      → Verified sha256 j
      → Respects sha256 others s w (relinking j, unlink_blob j.digest s)
  unfolding owns unlink_blob
  replacing-Respects w j nobody unused t = record {
    store_valid = unlink-IsValid sha256 j.digest s unused v;
    own = λ h o. cc;
    gain = λ h o. cc;
    frame = λ h o n held. elim (Bool-cases (j.digest == h)) [
      | inl e ↦ elim (nobody h e o) [ ]
      | inr e ↦ ground (arith, held.0, held.1, lookup-without j.digest h s.blob_files)
    ];
    tidy = t;
  }

  pub linked-Respects :
      (j : Job)
      → Held j.digest s
      → Verified sha256 j
      → Respects sha256 others s (linked j) (commit new j s)
  unfolding owns commit conclude rollback_finalizing finish_upload insert_artifact insert_blob
      increment_blob find
  linked-Respects j held t = elim (commit-new_cases j s) [
    | inl c ↦ rw c.after (record {
      store_valid = publish_new-IsValid sha256 j s c.free c.fresh held.0 v;
      own = λ h o. cc;
      gain = λ h o. cc;
      frame = λ h o n k. ground (arith, k.0, k.1);
      tidy = tt;
    })
    | inr (inl e) ↦ rw e (quiet (linked j) (answered _) _ (λ h. refl) tt)
    | inr (inr e) ↦ rw e (quiet (linked j) (answered _) _ (λ h. refl) tt)
  ]

  pub counting-Respects :
      (j : Job) → Verified sha256 j → Respects sha256 others s (counting j) (commit increment j s)
  unfolding owns commit conclude rollback_finalizing finish_upload insert_artifact insert_blob
      increment_blob find
  counting-Respects j t = elim (commit-increment_cases j s v.hashes) [
    | inl c ↦ rw c.after (record {
      store_valid = publish_increment-IsValid sha256 j s c.used c.fresh v;
      own = λ h o. cc;
      gain = λ h o. cc;
      frame = λ h o n k. ground (
        arith,
        k.0,
        k.1,
        find-update (λ b. b.hash) h (active_at j.digest) one_more s.blobs (λ b. refl),
      );
      tidy = tt;
    })
    | inr (inl e) ↦ rw (e.1) (quiet (counting j) (staged j) s.uploads (λ h. refl) t)
    | inr (inr e) ↦ rw e (quiet (counting j) (answered _) _ (λ h. refl) tt)
  ]
