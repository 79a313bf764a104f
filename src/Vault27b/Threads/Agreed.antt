-- ===== src/Vault27b/Threads/Agreed.antt =====
-- The answer of a finalization of vaultdrop/qwen-3-8-27b-v2.
use qwen_3_8_evals.Prelude.{
  ℕ, zero, suc, ◌≡◌, refl, Bool, true, false, Option, none, some, List, arith, find,
}
use mathlib.Core.Path.{subst}
use qwen_3_8_evals.Effect.{Outcome, ok, err, fault}
use qwen_3_8_evals.Vault27b.Types.{
  Store, BlobState, active, pending, deleted, Artifact, artifact_of,
}
use qwen_3_8_evals.Vault27b.Claims.{Claim}
use qwen_3_8_evals.Vault27b.Transactions.{
  Integrity, artifact_id_taken, upload_id_taken, content_hash_taken, claim_insert, claim_recover,
  claim_resurrect, insert_artifact, committed, insert_blob, reuse_blob, add_artifact,
  finalize_upload,
}
use qwen_3_8_evals.Vault27b.Threads.{
  Worker, idle, assembling, reading, placing, inserting, recovering, replacing, resurrecting,
  yielding, selecting, sweeping, quarantining, judging, restoring, answered, finalized_as, advance,
  attempt, decided, inserted, contended, recovered, resurrected, yielded, row_state,
}

-- The claim that a thread works on.
unfoldable pub claim_of : Worker → Option Claim
claim_of (reading c _ _) = some c
claim_of (placing c _ _) = some c
claim_of (inserting c _) = some c
claim_of (recovering c _ _) = some c
claim_of (replacing c _ _) = some c
claim_of (resurrecting c _) = some c
claim_of (yielding c _ _) = some c
claim_of idle = none
claim_of (assembling _) = none
claim_of selecting = none
claim_of (sweeping _ _) = none
claim_of (quarantining _ _ _ _) = none
claim_of (judging _ _ _ _ _) = none
claim_of (restoring _ _ _ _) = none
claim_of (answered _) = none

-- The artifact of an upload.
abbrev pub IsArtifactOf : ℕ → ℕ → Store → Type 0
IsArtifactOf upload_id i s =
    (a : Artifact) × (find (artifact_of upload_id) s.artifacts ≡ some a) × (a.artifact_id ≡ i)

-- What a commit leaves.
abbrev Commits : Claim → Outcome Integrity Store → Type 0
Commits c (ok t) = IsArtifactOf c.upload_id c.artifact_id t
Commits c (err _) = Unit
Commits c (fault _) = Unit

abbrev CommitsIf : Claim → Outcome Integrity (Option Store) → Type 0
CommitsIf c (ok none) = Unit
CommitsIf c (ok (some t)) = IsArtifactOf c.upload_id c.artifact_id t
CommitsIf c (err _) = Unit
CommitsIf c (fault _) = Unit

added-Commits :
    (c : Claim) (s : Store)
    → IsArtifactOf c.upload_id c.artifact_id (finalize_upload c.upload_id (add_artifact c s))
unfolding finalize_upload add_artifact find
added-Commits c s = (
  record {
    artifact_id = c.artifact_id;
    tenant_id = c.tenant_id;
    upload_id = c.upload_id;
    name = c.name;
    size = c.size;
    sha256 = c.digest;
    created_at = c.now;
  },
  ground arith,
  refl,
)

insert_artifact-Commits : (c : Claim) (s : Store) → Commits c (insert_artifact c s)
unfolding insert_artifact
insert_artifact-Commits c s = ground (arith, added-Commits c s)

claim_insert-Commits : (c : Claim) (s : Store) → Commits c (claim_insert c s)
unfolding claim_insert
claim_insert-Commits c s = ground (arith, insert_artifact-Commits c (insert_blob c s))

committed-CommitsIf :
    (c : Claim) (r : Outcome Integrity Store) → Commits c r → CommitsIf c (committed r)
committed-CommitsIf c (ok t) d = d
committed-CommitsIf c (err _) d = tt
committed-CommitsIf c (fault _) d = tt

claim_recover-Commits : (c : Claim) (s : Store) → CommitsIf c (claim_recover c s)
unfolding claim_recover
claim_recover-Commits c s =
    ground (arith, committed-CommitsIf c _ (insert_artifact-Commits c (reuse_blob c.digest s)))

claim_resurrect-Commits : (c : Claim) (s : Store) → Commits c (claim_resurrect c s)
unfolding claim_resurrect
claim_resurrect-Commits c s = claim_insert-Commits c _

-- What an answer says of the store that it leaves.
abbrev Honest : ℕ → Worker → Store → Type 0
Honest upload_id w s = (i : ℕ) → w ≡ answered (finalized_as i) → IsArtifactOf upload_id i s

attempt-Honest :
    (u : ℕ) (c : Claim) (held : Bool) (left : ℕ) (s : Store) → Honest u (attempt c held left) s
unfolding attempt
attempt-Honest u c held zero s i e = cc
attempt-Honest u c held (suc left) s i e = cc

contended-Honest :
    (u : ℕ) (e : Integrity) (c : Claim) (held : Bool) (left : ℕ) (s : Store)
    → Honest u (contended e c held left) s
unfolding contended
contended-Honest u upload_id_taken c held left s i e = cc
contended-Honest u artifact_id_taken c held left s i e = attempt-Honest u c held left s i e
contended-Honest u content_hash_taken c held left s i e = attempt-Honest u c held left s i e

-- A commit answers with its artifact.
committed-Honest :
    (c : Claim) (t : Store)
    → IsArtifactOf c.upload_id c.artifact_id t
    → Honest c.upload_id (answered (finalized_as c.artifact_id)) t
committed-Honest c t (a, found, same) i e = (a, found, ground (arith, same, e))

inserted-Honest :
    (r : Outcome Integrity Store) (c : Claim) (left : ℕ) (s : Store)
    → Commits c r
    → Honest c.upload_id (inserted r c left s).0 (inserted r c left s).1
unfolding inserted
inserted-Honest (ok t) c left s d i k = committed-Honest c t d i k
inserted-Honest (err _) c left s d i k = attempt-Honest c.upload_id c false left s i k
inserted-Honest (fault _) c left s d i e = cc

recovered-Honest :
    (r : Outcome Integrity (Option Store)) (c : Claim) (held : Bool) (left : ℕ) (s : Store)
    → CommitsIf c r
    → Honest c.upload_id (recovered r c held left s).0 (recovered r c held left s).1
unfolding recovered
recovered-Honest (ok (some t)) c held left s d i k = committed-Honest c t d i k
recovered-Honest (ok none) c held left s d i k = attempt-Honest c.upload_id c held left s i k
recovered-Honest (err e) c held left s d i k = contended-Honest c.upload_id e c held left s i k
recovered-Honest (fault _) c held left s d i e = cc

resurrected-Honest :
    (r : Outcome Integrity Store) (c : Claim) (left : ℕ) (s : Store)
    → Commits c r
    → Honest c.upload_id (resurrected r c left s).0 (resurrected r c left s).1
unfolding resurrected
resurrected-Honest (ok t) c left s d i k = committed-Honest c t d i k
resurrected-Honest (err e) c left s d i k = contended-Honest c.upload_id e c false left s i k
resurrected-Honest (fault _) c left s d i e = cc

decided-Honest :
    (u : ℕ) (o : Option BlobState) (c : Claim) (held : Bool) (left : ℕ) (s : Store)
    → Honest u (decided o c held left) s
unfolding decided
decided-Honest u none c held left s i e = cc
decided-Honest u (some active) c held left s i e = cc
decided-Honest u (some pending) c held left s i e = cc
decided-Honest u (some deleted) c held left s i e = cc

yielded-Honest :
    (o : Option Artifact) (c : Claim) (held : Bool) (left : ℕ) (s : Store)
    → find (artifact_of c.upload_id) s.artifacts ≡ o
    → Honest c.upload_id (yielded o c held left) s
unfolding yielded
yielded-Honest none c held left s e i k = attempt-Honest c.upload_id c held left s i k
yielded-Honest (some a) c held left s e i k = (a, e, ground (arith, k))

abbrev ForClaim : Option Claim → Worker → Store → Type 0
ForClaim none w s = Unit
ForClaim (some c) w s = Honest c.upload_id w s

module _ (sha256 : List ℕ → ℕ) where
  advance-ForClaim :
      (busy : Bool) (w : Worker) (s : Store)
      → ForClaim (claim_of w) (advance sha256 busy w s).0 (advance sha256 busy w s).1
  unfolding advance claim_of
  advance-ForClaim busy (reading d held left) s =
      decided-Honest d.upload_id (row_state d.digest s) d held left s
  advance-ForClaim busy (placing d held left) s = λ i e. cc
  advance-ForClaim true (inserting d left) s = λ i e. cc
  advance-ForClaim false (inserting d left) s =
      inserted-Honest (claim_insert d s) d left s (claim_insert-Commits d s)
  advance-ForClaim true (recovering d held left) s = λ i e. cc
  advance-ForClaim false (recovering d held left) s =
      recovered-Honest (claim_recover d s) d held left s (claim_recover-Commits d s)
  advance-ForClaim busy (replacing d held left) s = λ i e. cc
  advance-ForClaim true (resurrecting d left) s = λ i e. cc
  advance-ForClaim false (resurrecting d left) s =
      resurrected-Honest (claim_resurrect d s) d left s (claim_resurrect-Commits d s)
  advance-ForClaim busy (yielding d held left) s =
      yielded-Honest (find (artifact_of d.upload_id) s.artifacts) d held left s refl
  advance-ForClaim busy idle s = tt
  advance-ForClaim busy (assembling _) s = tt
  advance-ForClaim busy selecting s = tt
  advance-ForClaim busy (sweeping _ _) s = tt
  advance-ForClaim busy (quarantining _ _ _ _) s = tt
  advance-ForClaim busy (judging _ _ _ _ _) s = tt
  advance-ForClaim busy (restoring _ _ _ _) s = tt
  advance-ForClaim busy (answered _) s = tt

  -- When a step of a thread inside `_claim` answers with an artifact, that is the artifact of its upload in
  -- the store that the step leaves, whether the thread has inserted it or found that of another one.
  pub answer_agrees :
      (busy : Bool) (w : Worker) (c : Claim) (s : Store) (i : ℕ)
      → claim_of w ≡ some c
      → (advance sha256 busy w s).0 ≡ answered (finalized_as i)
      → (a : Artifact) × (find (artifact_of c.upload_id) (advance sha256 busy w s).1.artifacts
          ≡ some a)
        × (a.artifact_id ≡ i)
  answer_agrees busy w c s i e k =
      subst (λ o. ForClaim o (advance sha256 busy w s).0 (advance sha256 busy w s).1) e
        (advance-ForClaim busy w s) i k
