-- ===== src/VaultQwen/Valid/Commits.antt =====
-- The commit of a finalization in vaultdrop/qwen-v3, in both modes.
use qwen_3_8_evals.Prelude.{
  ℕ, ◌≡◌, ◌⊎◌, inl, inr, refl, true, false, List, [], ◌∷◌, arith, if◌then◌else◌, any, find, count,
  holds, Distinct, find-none, Bool-cases,
}
use qwen_3_8_evals.Effect.{ok, err, fault, ◌>>=◌, atomically}
use qwen_3_8_evals.VaultQwen.Types.{is_active, Blob, Store, increment_lost}
use qwen_3_8_evals.VaultQwen.Blobs.{
  Job, blob_at, artifact_at, active_at, insert_blob, increment_blob, insert_artifact, finish_upload,
  commit_finalization, new, increment,
}
use qwen_3_8_evals.VaultQwen.System.{in_use}

-- The rows that the second UPDATE counts: one, if the digest is in use.
count-active :
    (h : ℕ) (bs : List Blob)
    → Distinct (λ b. b.hash) bs
    → count (active_at h) bs
      ≡ (if holds (λ b. is_active b.state) (find (blob_at h) bs) then 1 else 0)
unfolding count find
count-active h [] d = refl
count-active h (b ∷ bs) d = ground (arith, count-active h bs d.1, find-none (λ b. b.hash) h bs)

-- What a commit leaves: all of its rows, or the store as it was.
pub record NewCommitted (j : Job) (s : Store) : Type 0 where
  pub free : any (blob_at j.digest) s.blobs ≡ false
  pub fresh : any (artifact_at j.artifact_id) s.artifacts ≡ false
  pub after :
      commit_finalization new j s ≡ (ok tt, finish_upload j (insert_artifact j (insert_blob j s)))

pub commit-new_cases :
    (j : Job) (s : Store)
    → NewCommitted j s
      ⊎ commit_finalization new j s ≡ (fault "UNIQUE constraint failed: blobs.hash", s)
      ⊎ commit_finalization new j s ≡ (fault "UNIQUE constraint failed: artifacts.id", s)
unfolding commit_finalization ◌>>=◌ atomically
commit-new_cases j s = elim (Bool-cases (any (blob_at j.digest) s.blobs)) [
  | inl taken ↦ inr (inl (rw taken))
  | inr free ↦ elim (Bool-cases (any (artifact_at j.artifact_id) s.artifacts)) [
    | inl taken ↦ inr (inr (rw (free, taken)))
    | inr fresh ↦ inl (record { free = free; fresh = fresh; after = rw (free, fresh) })
  ]
]

pub record IncrementCommitted (j : Job) (s : Store) : Type 0 where
  pub used : in_use j.digest s ≡ true
  pub fresh : any (artifact_at j.artifact_id) s.artifacts ≡ false
  pub after :
      commit_finalization increment j s
      ≡ (ok tt, finish_upload j (insert_artifact j (increment_blob j.digest s)))

pub commit-increment_cases :
    (j : Job) (s : Store)
    → Distinct (λ b. b.hash) s.blobs
    → IncrementCommitted j s
      ⊎ ((in_use j.digest s ≡ false)
          × (commit_finalization increment j s ≡ (err increment_lost, s)))
      ⊎ commit_finalization increment j s ≡ (fault "UNIQUE constraint failed: artifacts.id", s)
unfolding commit_finalization ◌>>=◌ atomically
commit-increment_cases j s d = elim (Bool-cases (in_use j.digest s)) [
  | inl used ↦
      let one : count (active_at j.digest) s.blobs ≡ 1 =
        ground (arith, count-active j.digest s.blobs d) in
      elim (Bool-cases (any (artifact_at j.artifact_id) s.artifacts)) [
        | inl taken ↦ inr (inr (rw (one, taken)))
        | inr fresh ↦ inl (record { used = used; fresh = fresh; after = rw (one, fresh) })
      ]
  | inr unused ↦
      let zero : count (active_at j.digest) s.blobs ≡ 0 =
        ground (arith, count-active j.digest s.blobs d) in
      inr (inl (unused, rw zero))
]
