-- ===== src/Vault27b/Bytes/Claims.antt =====
-- The transactions and the placing of bytes of `_claim`, against the other threads.
use qwen_3_8_evals.Prelude.{
  ℕ, zero, suc, ◌≡◌, ◌⊎◌, inl, inr, refl, Bool, true, false, Option, none, some, List, arith, find,
  any, count, lookup-put, find-update, find-delete, any-update, any-find, find-Keyed, Bool-cases,
  ◌==◌,
}
use qwen_3_8_evals.Effect.{Outcome, ok, err, fault}
use qwen_3_8_evals.Vault27b.Types.{Blob, Store, blob_at}
use qwen_3_8_evals.Vault27b.Claims.{Claim}
use qwen_3_8_evals.Vault27b.Transactions.{
  Integrity, artifact_id_taken, upload_id_taken, content_hash_taken, claim_insert, claim_recover,
  claim_resurrect, insert_blob, add_artifact, finalize_upload, reuse_blob, reused, usable_at,
  clear_tombstone, tombstone_at, place_blob,
}
use qwen_3_8_evals.Vault27b.Threads.{
  Worker, inserting, recovering, resurrecting, answered, finalized_as, place_held, inserted,
  recovered, resurrected, attempt, contended, failed,
}
use qwen_3_8_evals.Vault27b.System.{quarantines}
use qwen_3_8_evals.Vault27b.Counts.{StoreIsValid, Leaves, LeavesIf, count-usable}
use qwen_3_8_evals.Vault27b.Bytes.{has_row, usable, Ready, Tidy}
use qwen_3_8_evals.Vault27b.Bytes.Local.{Respects, Given, Serves-quiet, quiet}

-- What a transaction of `_claim` may do to the rows and the files.
pub record Publishes (digest : ℕ) (s t : Store) : Type 0 where
  pub own : has_row digest t ≡ true
  pub files : t.blob_files ≡ s.blob_files
  pub rows : (h : ℕ) → has_row h s ≡ true → has_row h t ≡ true
  -- Only its own digest becomes usable.
  pub others : (h : ℕ) → usable h t ≡ true → (h ≡ digest) ⊎ (usable h s ≡ true)

abbrev hash : Blob → ℕ
hash b = b.content_hash

Leaves-map :
    {P Q : Store → Type 0} (r : Outcome Integrity Store)
    → ((t : Store) → P t → Q t)
    → Leaves P r
    → Leaves Q r
Leaves-map (ok t) f p = f t p
Leaves-map (err _) f p = tt
Leaves-map (fault _) f p = tt

insert-Publishes :
    (c : Claim) (s : Store)
    → Publishes c.digest s (finalize_upload c.upload_id (add_artifact c (insert_blob c s)))
unfolding finalize_upload add_artifact insert_blob any find
insert-Publishes c s = record {
  own = ground arith;
  files = refl;
  rows = λ h e. ground (arith, e);
  others = λ h e. ground (arith, e);
}

pub claim_insert-Publishes :
    (c : Claim) (s : Store)
    → Leaves (λ t. Publishes c.digest s t × (has_row c.digest s ≡ false)) (claim_insert c s)
unfolding claim_insert
claim_insert-Publishes c s = elim (Bool-cases (any (blob_at c.digest) s.blobs)) [
  | inl e ↦ ground (arith, e)
  | inr e ↦ ground (arith, e, insert-Publishes c s)
]

reuse-Publishes :
    (c : Claim) (s : Store)
    → StoreIsValid s
    → count (usable_at c.digest) s.blobs ≡ 1
    → Publishes c.digest s (finalize_upload c.upload_id (add_artifact c (reuse_blob c.digest s)))
unfolding finalize_upload add_artifact reuse_blob
reuse-Publishes c s v e =
    let same = λ (h : ℕ). any-update hash h (usable_at c.digest) reused s.blobs (λ b. refl) in
    record {
      own = ground (
        arith,
        same c.digest,
        any-find hash c.digest s.blobs,
        e,
        count-usable c.digest s.blobs v.hashes,
      );
      files = refl;
      rows = λ h k. ground (arith, k, same h);
      others = λ h k. ground (
        arith,
        k,
        find-update hash h (usable_at c.digest) reused s.blobs (λ b. refl),
        find-Keyed hash h s.blobs,
      );
    }

pub claim_recover-Publishes :
    (c : Claim) (s : Store)
    → StoreIsValid s
    → LeavesIf (λ t. Publishes c.digest s t × (usable c.digest s ≡ true)) (claim_recover c s)
unfolding claim_recover
claim_recover-Publishes c s v = elim (Bool-cases (count (usable_at c.digest) s.blobs == 1)) [
  | inl e ↦
      ground (
        arith,
        e,
        reuse-Publishes c s v (ground (arith, e)),
        count-usable c.digest s.blobs v.hashes,
      )
  | inr e ↦ ground (arith, e)
]

resurrect-Publishes :
    (c : Claim) (s t : Store)
    → StoreIsValid s
    → Publishes c.digest (clear_tombstone c.digest s) t
    → Publishes c.digest s t
unfolding clear_tombstone
resurrect-Publishes c s t v p =
    let kept = λ (h : ℕ). find-delete hash h (tombstone_at c.digest) s.blobs v.hashes in
    record {
      own = p.own;
      files = p.files;
      rows = λ h e. ground (
        arith,
        e,
        p.own,
        p.rows h,
        kept h,
        any-find hash h s.blobs,
        any-find hash h (clear_tombstone c.digest s).blobs,
        find-Keyed hash h s.blobs,
      );
      others = λ h e. ground (arith, e, p.others h e, kept h);
    }

pub claim_resurrect-Publishes :
    (c : Claim) (s : Store)
    → StoreIsValid s
    → Leaves (λ t. Publishes c.digest s t) (claim_resurrect c s)
unfolding claim_resurrect
claim_resurrect-Publishes c s v =
    Leaves-map _ (λ t p. resurrect-Publishes c s t v p.0)
      (claim_insert-Publishes c (clear_tombstone c.digest s))

module _ (sha256 : List ℕ → ℕ) (Av : ℕ → Type 0) (s : Store) (g : Given sha256 Av s) where
  -- A commit, when the bytes of its digest are available.
  publish-Respects :
      (w : Worker) (a : ℕ) (digest : ℕ) (t : Store)
      → Publishes digest s t
      → Av digest
      → ((h : ℕ) → quarantines h w ≡ false)
      → Respects sha256 Av s w (answered (finalized_as a), t)
  publish-Respects w a digest t p there q = record {
    addressed = λ h content e. g.addressed h content (rw p.files at e);
    frame = record { rows = p.rows; files = λ h e k. rw p.files k };
    serves = λ h e.
        Serves-quiet sha256 Av s w (answered (finalized_as a), t) h (λ k. rw p.files k) (q h)
          (elim (p.others h e) [ inl same ↦ rw same there | inr used ↦ g.available h used ]);
    tidy = tt;
  }

  pub attempt-Tidy :
      (c : Claim) (held : Bool) (left : ℕ)
      → Ready sha256 c held s
      → Tidy sha256 s (attempt c held left)
  unfolding attempt
  attempt-Tidy c held zero r = tt
  attempt-Tidy c held (suc left) r = r

  contended-Tidy :
      (e : Integrity) (c : Claim) (held : Bool) (left : ℕ)
      → Ready sha256 c held s
      → Tidy sha256 s (contended e c held left)
  unfolding contended
  contended-Tidy upload_id_taken c held left r = r
  contended-Tidy artifact_id_taken c held left r = attempt-Tidy c held left r
  contended-Tidy content_hash_taken c held left r = attempt-Tidy c held left r

  pub inserted-Respects :
      (c : Claim) (left : ℕ) (r : Outcome Integrity Store)
      → Ready sha256 c false s
      → Leaves (λ t. Publishes c.digest s t × (has_row c.digest s ≡ false)) r
      → Respects sha256 Av s (inserting c left) (inserted r c left s)
  unfolding inserted quarantines
  inserted-Respects c left (ok t) d (p, free) =
      publish-Respects (inserting c left) c.artifact_id c.digest t p (g.there c.digest (d.1 free))
        (λ h. refl)
  inserted-Respects c left (err e) d p =
      quiet sha256 Av s (inserting c left) (attempt c false left) g (λ h. refl)
        (attempt-Tidy c false left d)
  inserted-Respects c left (fault _) d p =
      quiet sha256 Av s (inserting c left) failed g (λ h. refl) tt

  pub recovered-Respects :
      (c : Claim) (held : Bool) (left : ℕ) (r : Outcome Integrity (Option Store))
      → Ready sha256 c held s
      → LeavesIf (λ t. Publishes c.digest s t × (usable c.digest s ≡ true)) r
      → Respects sha256 Av s (recovering c held left) (recovered r c held left s)
  unfolding recovered quarantines
  recovered-Respects c held left (ok (some t)) d (p, used) =
      publish-Respects (recovering c held left) c.artifact_id c.digest t p
        (g.available c.digest used) (λ h. refl)
  recovered-Respects c held left (ok none) d p =
      quiet sha256 Av s (recovering c held left) (attempt c held left) g (λ h. refl)
        (attempt-Tidy c held left d)
  recovered-Respects c held left (err e) d p =
      quiet sha256 Av s (recovering c held left) (contended e c held left) g (λ h. refl)
        (contended-Tidy e c held left d)
  recovered-Respects c held left (fault _) d p =
      quiet sha256 Av s (recovering c held left) failed g (λ h. refl) tt

  pub resurrected-Respects :
      (c : Claim) (left : ℕ) (r : Outcome Integrity Store)
      → Ready sha256 c false s
      → Av c.digest
      → Leaves (λ t. Publishes c.digest s t) r
      → Respects sha256 Av s (resurrecting c left) (resurrected r c left s)
  unfolding resurrected quarantines
  resurrected-Respects c left (ok t) d there p =
      publish-Respects (resurrecting c left) c.artifact_id c.digest t p there (λ h. refl)
  resurrected-Respects c left (err e) d there p =
      quiet sha256 Av s (resurrecting c left) (contended e c false left) g (λ h. refl)
        (contended-Tidy e c false left d)
  resurrected-Respects c left (fault _) d there p =
      quiet sha256 Av s (resurrecting c left) failed g (λ h. refl) tt

  -- Bytes with the right digest are put in its file, or a file that may be there already.
  pub place-Respects :
      (c : Claim) (held : Bool) (w v : Worker)
      → sha256 c.content ≡ c.digest
      → ((h : ℕ) → quarantines h w ≡ false)
      → Tidy sha256 (place_held c held s) v
      → Respects sha256 Av s w (v, place_held c held s)
  unfolding place_held place_blob
  place-Respects c true w v e q t = record {
    addressed = λ h content k.
        ground (arith, e, k, g.addressed h content, lookup-put c.digest h c.content s.blob_files);
    frame = record {
      rows = λ h k. k;
      files = λ h k p. ground (arith, p, lookup-put c.digest h c.content s.blob_files);
    };
    serves = λ h k.
        Serves-quiet sha256 Av s w (v, place_held c true s) h
          (λ p. ground (arith, p, lookup-put c.digest h c.content s.blob_files)) (q h)
          (g.available h k);
    tidy = t;
  }
  place-Respects c false w v e q t = quiet sha256 Av s w v g q t

  pub place-Ready :
      (c : Claim) (held : Bool) → Ready sha256 c held s → Ready sha256 c false (place_held c held s)
  unfolding place_held place_blob
  place-Ready c true r =
      (r.0, λ k. ground (arith, lookup-put c.digest c.digest c.content s.blob_files))
  place-Ready c false r = r
