-- ===== src/Vault27b/Counts.antt =====
-- The tables of vaultdrop/qwen-3-8-27b-v2: refcounts and keys, under each of its transactions.
pub mod Calls
pub mod Runs
use qwen_3_8_evals.Prelude.{
  ℕ, suc, String, ◌+◌, ◌≡◌, refl, inl, inr, Bool, true, false, not, Option, none, some, List, [],
  ◌∷◌, All, arith, count, find, any, update, delete, Distinct, Bool-cases, Option-cases,
  find-update, find-delete, find-none, find-Keyed, find-own, count-delete, Distinct-update,
  Distinct-delete, if◌then◌else◌, ◌==◌,
}
use qwen_3_8_evals.Effect.{Outcome, ok, err, fault}
use qwen_3_8_evals.Vault27b.Types.{
  BlobState, active, pending, deleted, Artifact, Blob, Store, is_deleted, is_usable, artifact_at,
  artifact_of, refers, blob_at,
}
use qwen_3_8_evals.Vault27b.Claims.{Claim}
use qwen_3_8_evals.Vault27b.Transactions.{
  Integrity, add_artifact, finalize_upload, insert_artifact, insert_blob, claim_insert, usable_at,
  reused, reuse_blob, claim_recover, committed, tombstone_at, clear_tombstone, claim_resurrect,
  is_unreferenced, marked, mark, candidate_at, buried, bury, released, is_uncounted, drop_artifact,
  artifact_owned, delete_artifact,
}

-- Only an active row may have artifacts.
abbrev pub Fits : BlobState → ℕ → Type 0
Fits active n = Unit
Fits pending n = n ≡ 0
Fits deleted n = n ≡ 0

abbrev pub Counted : Option Blob → ℕ → Type 0
Counted none n = n ≡ 0
Counted (some b) n = (b.refcount ≡ n) × Fits b.state n

-- The refcount of each digest is the number of its artifacts; and ids, uploads and digests are keys.
pub record StoreIsValid (s : Store) : Type 0 where
  pub counted : (h : ℕ) → Counted (find (blob_at h) s.blobs) (count (refers h) s.artifacts)
  pub ids : Distinct (λ a. a.artifact_id) s.artifacts
  pub uploads : Distinct (λ a. a.upload_id) s.artifacts
  pub hashes : Distinct (λ b. b.content_hash) s.blobs

abbrev hash : Blob → ℕ
hash b = b.content_hash

insert-IsValid :
    (c : Claim) (s : Store)
    → any (blob_at c.digest) s.blobs ≡ false
    → any (artifact_at c.artifact_id) s.artifacts ≡ false
    → any (artifact_of c.upload_id) s.artifacts ≡ false
    → StoreIsValid s
    → StoreIsValid (finalize_upload c.upload_id (add_artifact c (insert_blob c s)))
unfolding finalize_upload add_artifact insert_blob find count
insert-IsValid c s free fresh single v = record {
  counted = λ h. ground (arith, v.counted h, find-none hash c.digest s.blobs free);
  ids = (fresh, v.ids);
  uploads = (single, v.uploads);
  hashes = (free, v.hashes);
}

count-unkeyed : (h : ℕ) (bs : List Blob) → any (blob_at h) bs ≡ false → count (usable_at h) bs ≡ 0
unfolding any count
count-unkeyed h [] e = refl
count-unkeyed h (b ∷ bs) e = ground (arith, count-unkeyed h bs)

-- What `rowcount != 1` is about: an UPDATE by digest meets one row or none.
pub count-usable :
    (h : ℕ) (bs : List Blob)
    → Distinct hash bs
    → count (usable_at h) bs ≡ (if is_usable (find (blob_at h) bs) then 1 else 0)
unfolding find count
count-usable h [] d = refl
count-usable h (b ∷ bs) d = ground (arith, count-usable h bs d.1, count-unkeyed h bs)

reuse-IsValid :
    (c : Claim) (s : Store)
    → count (usable_at c.digest) s.blobs ≡ 1
    → any (artifact_at c.artifact_id) s.artifacts ≡ false
    → any (artifact_of c.upload_id) s.artifacts ≡ false
    → StoreIsValid s
    → StoreIsValid (finalize_upload c.upload_id (add_artifact c (reuse_blob c.digest s)))
unfolding finalize_upload add_artifact reuse_blob count
reuse-IsValid c s used fresh single v = record {
  counted = λ h. ground (
    arith,
    v.counted h,
    used,
    count-usable c.digest s.blobs v.hashes,
    find-update hash h (usable_at c.digest) reused s.blobs (λ b. refl),
    find-Keyed hash h s.blobs,
  );
  ids = (fresh, v.ids);
  uploads = (single, v.uploads);
  hashes = Distinct-update hash (usable_at c.digest) reused s.blobs (λ b. refl) v.hashes;
}

clear-IsValid : (digest : ℕ) (s : Store) → StoreIsValid s → StoreIsValid (clear_tombstone digest s)
unfolding clear_tombstone
clear-IsValid digest s v = record {
  counted =
      λ h. ground (arith, v.counted h, find-delete hash h (tombstone_at digest) s.blobs v.hashes);
  ids = v.ids;
  uploads = v.uploads;
  hashes = Distinct-delete hash (tombstone_at digest) s.blobs v.hashes;
}

pub mark-IsValid : (s : Store) → StoreIsValid s → StoreIsValid (mark s)
unfolding mark
mark-IsValid s v = record {
  counted = λ h.
      ground (arith, v.counted h, find-update hash h is_unreferenced marked s.blobs (λ b. refl));
  ids = v.ids;
  uploads = v.uploads;
  hashes = Distinct-update hash is_unreferenced marked s.blobs (λ b. refl) v.hashes;
}

pub bury-IsValid : (digest : ℕ) (s : Store) → StoreIsValid s → StoreIsValid (bury digest s)
unfolding bury
bury-IsValid digest s v = record {
  counted = λ h.
      ground
        (arith, v.counted h, find-update hash h (candidate_at digest) buried s.blobs (λ b. refl));
  ids = v.ids;
  uploads = v.uploads;
  hashes = Distinct-update hash (candidate_at digest) buried s.blobs (λ b. refl) v.hashes;
}

drop-IsValid :
    (a : Artifact) (s : Store)
    → find (artifact_at a.artifact_id) s.artifacts ≡ some a
    → StoreIsValid s
    → StoreIsValid (drop_artifact a s)
unfolding drop_artifact
drop-IsValid a s e v = record {
  counted = λ h. ground (
    arith,
    v.counted h,
    find-update hash h (blob_at a.sha256) released s.blobs (λ b. refl),
    find-Keyed hash h s.blobs,
    count-delete (λ x. x.artifact_id) (refers h) a s.artifacts v.ids e,
  );
  ids = Distinct-delete (λ x. x.artifact_id) (artifact_at a.artifact_id) s.artifacts v.ids;
  uploads = Distinct-delete (λ x. x.upload_id) (artifact_at a.artifact_id) s.artifacts v.uploads;
  hashes = Distinct-update hash (blob_at a.sha256) released s.blobs (λ b. refl) v.hashes;
}

pub delete_artifact-IsValid :
    (tenant : String) (artifact_id : ℕ) (s : Store)
    → StoreIsValid s
    → StoreIsValid (delete_artifact tenant artifact_id s).1
unfolding delete_artifact
delete_artifact-IsValid tenant artifact_id s v =
    elim (Option-cases (find (artifact_owned tenant artifact_id) s.artifacts)) [
      | inl e ↦ ground (arith, e, v)
      | inr (a, e) ↦ ground (
        arith,
        e,
        v,
        drop-IsValid a s
            (find-own (λ x. x.artifact_id) (artifact_owned tenant artifact_id) a s.artifacts v.ids
              e)
            v,
      )
    ]

-- What a transaction leaves, if it commits.
abbrev pub Leaves : (Store → Type 0) → Outcome Integrity Store → Type 0
Leaves P (ok t) = P t
Leaves P (err _) = Unit
Leaves P (fault _) = Unit

abbrev pub LeavesIf : (Store → Type 0) → Outcome Integrity (Option Store) → Type 0
LeavesIf P (ok none) = Unit
LeavesIf P (ok (some t)) = P t
LeavesIf P (err _) = Unit
LeavesIf P (fault _) = Unit

pub claim_insert-IsValid :
    (c : Claim) (s : Store) → StoreIsValid s → Leaves StoreIsValid (claim_insert c s)
unfolding claim_insert
claim_insert-IsValid c s v = elim (Bool-cases (any (blob_at c.digest) s.blobs)) [
  | inl e ↦ rw e tt
  | inr e ↦ ground (arith, e, insert-IsValid c s e)
]

pub claim_recover-IsValid :
    (c : Claim) (s : Store) → StoreIsValid s → LeavesIf StoreIsValid (claim_recover c s)
unfolding claim_recover
claim_recover-IsValid c s v = elim (Bool-cases (count (usable_at c.digest) s.blobs == 1)) [
  | inl e ↦ ground (arith, e, reuse-IsValid c s (ground (arith, e)))
  | inr e ↦ ground (arith, e)
]

pub claim_resurrect-IsValid :
    (c : Claim) (s : Store) → StoreIsValid s → Leaves StoreIsValid (claim_resurrect c s)
unfolding claim_resurrect
claim_resurrect-IsValid c s v = claim_insert-IsValid c _ (clear-IsValid c.digest s v)
