-- ===== src/Vault27b/Threads/Answered.antt =====
-- How many of its own steps a thread of vaultdrop/qwen-3-8-27b-v2 takes to its answer.
use qwen_3_8_evals.Prelude.{
  ℕ, zero, suc, ◌+◌, ◌*◌, ◌≤◌, ◌<◌, ◌≡◌, ◌⊎◌, inl, inr, refl, String, Bool, true, false, Option,
  none, some, List, [], ◌∷◌, length, arith, find, lookup,
}
use qwen_3_8_evals.Json.{Json}
use qwen_3_8_evals.Effect.{Outcome, ok, err, fault}
use qwen_3_8_evals.Vault27b.Types.{
  Blob, Store, BlobState, active, pending, deleted, ApiError, Artifact, artifact_of,
}
use qwen_3_8_evals.Vault27b.Claims.{Claim, Begun, ordered, existing, assemble, begin_finalize}
use qwen_3_8_evals.Vault27b.Transactions.{
  Integrity, artifact_id_taken, upload_id_taken, content_hash_taken, claim_insert, claim_recover,
  claim_resurrect,
}
use qwen_3_8_evals.Vault27b.Threads.{
  Worker, idle, assembling, reading, placing, inserting, recovering, replacing, resurrecting,
  yielding, selecting, sweeping, quarantining, judging, restoring, answered, Tally, accept, reread,
  finalize, advance, attempt, assembled, decided, inserted, contended, recovered, resurrected,
  yielded, sweep, quarantine, judged, row_state, started,
}

-- The steps that are left.
unfoldable pub rank : Worker → ℕ
rank idle = 0
rank (answered _) = 0
rank (assembling _) = 21
rank (reading _ _ left) = 4 * left + 4
rank (placing _ _ left) = 4 * left + 3
rank (recovering _ _ left) = 4 * left + 3
rank (replacing _ _ left) = 4 * left + 3
rank (inserting _ left) = 4 * left + 2
rank (resurrecting _ left) = 4 * left + 2
rank (yielding _ _ left) = 4 * left + 1
rank selecting = 0
rank (sweeping _ left) = 4 * length left + 1
rank (quarantining _ _ _ rest) = 4 * length rest + 4
rank (judging _ _ _ _ rest) = 4 * length rest + 3
rank (restoring _ _ _ rest) = 4 * length rest + 2

abbrev pub is_answered : Worker → Bool
is_answered (answered _) = true
is_answered idle = false
is_answered (assembling _) = false
is_answered (reading _ _ _) = false
is_answered (placing _ _ _) = false
is_answered (inserting _ _) = false
is_answered (recovering _ _ _) = false
is_answered (replacing _ _ _) = false
is_answered (resurrecting _ _) = false
is_answered (yielding _ _ _) = false
is_answered selecting = false
is_answered (sweeping _ _) = false
is_answered (quarantining _ _ _ _) = false
is_answered (judging _ _ _ _ _) = false
is_answered (restoring _ _ _ _) = false

-- A thread that has its answer, or fewer than `n` steps to it.
abbrev pub Within : ℕ → Worker → Type 0
Within n w = (is_answered w ≡ true) ⊎ ((rank w < n) × (1 ≤ rank w))

attempt-Within : (c : Claim) (held : Bool) (left : ℕ) → Within (4 * left + 1) (attempt c held left)
unfolding attempt rank
attempt-Within c held zero = inl refl
attempt-Within c held (suc left) = inr (omega arith, omega arith)

Within-more : (m n : ℕ) (w : Worker) → m ≤ n → Within m w → Within n w
Within-more m n w h (inl e) = inl e
Within-more m n w h (inr (a, b)) = inr (omega arith, b)

assembled-Within : (o : Outcome ApiError Claim) → Within 21 (assembled o)
unfolding assembled rank
assembled-Within (ok c) =
    Within-more 21 21 (attempt c true 5) (omega arith) (attempt-Within c true 5)
assembled-Within (err e) = inl refl
assembled-Within (fault m) = inl refl

decided-Within :
    (o : Option BlobState) (c : Claim) (held : Bool) (left : ℕ)
    → Within (4 * left + 4) (decided o c held left)
unfolding decided rank
decided-Within none c held left = inr (omega arith, omega arith)
decided-Within (some active) c held left = inr (omega arith, omega arith)
decided-Within (some pending) c held left = inr (omega arith, omega arith)
decided-Within (some deleted) c held left = inr (omega arith, omega arith)

contended-Within :
    (e : Integrity) (c : Claim) (held : Bool) (left : ℕ)
    → Within (4 * left + 2) (contended e c held left)
unfolding contended rank
contended-Within upload_id_taken c held left = inr (omega arith, omega arith)
contended-Within artifact_id_taken c held left =
    Within-more _ _ _ (omega arith) (attempt-Within c held left)
contended-Within content_hash_taken c held left =
    Within-more _ _ _ (omega arith) (attempt-Within c held left)

inserted-Within :
    (r : Outcome Integrity Store) (c : Claim) (left : ℕ) (s : Store)
    → Within (4 * left + 2) (inserted r c left s).0
unfolding inserted
inserted-Within (ok t) c left s = inl refl
inserted-Within (err e) c left s = Within-more _ _ _ (omega arith) (attempt-Within c false left)
inserted-Within (fault m) c left s = inl refl

recovered-Within :
    (r : Outcome Integrity (Option Store)) (c : Claim) (held : Bool) (left : ℕ) (s : Store)
    → Within (4 * left + 3) (recovered r c held left s).0
unfolding recovered
recovered-Within (ok (some t)) c held left s = inl refl
recovered-Within (ok none) c held left s =
    Within-more _ _ _ (omega arith) (attempt-Within c held left)
recovered-Within (err e) c held left s =
    Within-more _ _ _ (omega arith) (contended-Within e c held left)
recovered-Within (fault m) c held left s = inl refl

resurrected-Within :
    (r : Outcome Integrity Store) (c : Claim) (left : ℕ) (s : Store)
    → Within (4 * left + 2) (resurrected r c left s).0
unfolding resurrected
resurrected-Within (ok t) c left s = inl refl
resurrected-Within (err e) c left s = contended-Within e c false left
resurrected-Within (fault m) c left s = inl refl

yielded-Within :
    (a : Option Artifact) (c : Claim) (held : Bool) (left : ℕ)
    → Within (4 * left + 1) (yielded a c held left)
unfolding yielded
yielded-Within (some a) c held left = inl refl
yielded-Within none c held left = attempt-Within c held left

sweep-Within :
    (busy : Bool) (t : Tally) (left : List Blob) (s : Store)
    → Within (4 * length left + 1) (sweep busy t left s).0
unfolding sweep rank
sweep-Within busy t [] s = inl refl
sweep-Within true t (b ∷ rest) s = inl refl
sweep-Within false t (b ∷ rest) s = inr (omega arith, omega arith)

quarantine-Within :
    (o : Option (List ℕ)) (t : Tally) (b : Blob) (seen : Option BlobState) (rest : List Blob)
    (s : Store)
    → Within (4 * length rest + 4) (quarantine o t b seen rest s).0
unfolding quarantine rank
quarantine-Within none t b seen rest s = inr (omega arith, omega arith)
quarantine-Within (some content) t b seen rest s = inr (omega arith, omega arith)

judged-Within :
    (o : Option BlobState) (t : Tally) (b : Blob) (content : List ℕ) (rest : List Blob)
    → Within (4 * length rest + 3) (judged o t b content rest)
unfolding judged rank
judged-Within none t b content rest = inr (omega arith, omega arith)
judged-Within (some active) t b content rest = inr (omega arith, omega arith)
judged-Within (some pending) t b content rest = inr (omega arith, omega arith)
judged-Within (some deleted) t b content rest = inr (omega arith, omega arith)

module _ (sha256 : List ℕ → ℕ) where
  advance-Within :
      (busy : Bool) (w : Worker) (s : Store) (n : ℕ)
      → Within (suc n) w
      → Within n (advance sha256 busy w s).0
  unfolding advance rank
  advance-Within busy idle s n h = ground (arith, h)
  advance-Within busy (assembling o) s n h =
      Within-more _ _ _ (ground (arith, h)) (assembled-Within (assemble sha256 o s))
  advance-Within busy (reading c held left) s n h =
      Within-more _ _ _ (ground (arith, h)) (decided-Within (row_state c.digest s) c held left)
  advance-Within busy (placing c held left) s n h = inr (ground (arith, h), omega arith)
  advance-Within true (inserting c left) s n h = inl refl
  advance-Within false (inserting c left) s n h =
      Within-more _ _ _ (ground (arith, h)) (inserted-Within (claim_insert c s) c left s)
  advance-Within true (recovering c held left) s n h = inl refl
  advance-Within false (recovering c held left) s n h =
      Within-more _ _ _ (ground (arith, h)) (recovered-Within (claim_recover c s) c held left s)
  advance-Within busy (replacing c held left) s n h = inr (ground (arith, h), omega arith)
  advance-Within true (resurrecting c left) s n h = inl refl
  advance-Within false (resurrecting c left) s n h =
      Within-more _ _ _ (ground (arith, h)) (resurrected-Within (claim_resurrect c s) c left s)
  advance-Within busy (yielding c held left) s n h =
      Within-more _ _ _ (ground (arith, h))
        (yielded-Within (find (artifact_of c.upload_id) s.artifacts) c held left)
  advance-Within busy selecting s n h = ground (arith, h)
  advance-Within busy (sweeping t left) s n h =
      Within-more _ _ _ (ground (arith, h)) (sweep-Within busy t left s)
  advance-Within busy (quarantining t b seen rest) s n h =
      Within-more _ _ _ (ground (arith, h))
        (quarantine-Within (lookup b.content_hash s.blob_files) t b seen rest s)
  advance-Within busy (judging t b seen content rest) s n h =
      Within-more _ _ _ (ground (arith, h))
        (judged-Within (reread rest seen (row_state b.content_hash s)) t b content rest)
  advance-Within busy (restoring t b content rest) s n h = inr (ground (arith, h), omega arith)
  advance-Within busy (answered a) s n h = inl refl

  -- The steps of one thread: what the others did to the store before each of them is arbitrary.
  unfoldable pub drive : List (Bool × Store) → Worker → Worker
  unfolding advance
  drive [] w = w
  drive ((busy, s) ∷ rest) w = drive rest (advance sha256 busy w s).0

  drive-Within :
      (env : List (Bool × Store)) (w : Worker)
      → Within (suc (length env)) w
      → is_answered (drive env w) ≡ true
  unfolding drive
  drive-Within [] w h = ground (arith, h)
  drive-Within ((busy, s) ∷ rest) w h =
      drive-Within rest _ (advance-Within busy w s (suc (length rest)) h)

  started-Within : (b : Outcome ApiError Begun) → Within 22 (started b)
  unfolding rank
  started-Within (ok (ordered o)) = inr (omega arith, omega arith)
  started-Within (ok (existing i)) = inl refl
  started-Within (err e) = inl refl
  started-Within (fault m) = inl refl

  -- Whatever the other threads do to the store in between, a finalization has its answer after at most 21
  -- of its own steps, and a collection with `n` candidates after at most 4 n + 1.
  pub thread_answers :
      (tenant : String) (upload_id : ℕ) (sha size : Json) (artifact_id now : ℕ) (s : Store)
      (t : Tally) (left : List Blob) (env env' : List (Bool × Store))
      → 21 ≤ length env
      → 4 * length left + 1 ≤ length env'
      → (is_answered (drive env (accept (finalize tenant upload_id sha size artifact_id now) s).0)
          ≡ true)
        × (is_answered (drive env' (sweeping t left)) ≡ true)
  unfolding accept rank
  thread_answers tenant upload_id sha size artifact_id now s t left env env' h k = (
    drive-Within env _ (
        Within-more _ _ _ (omega (arith, h))
          (started-Within (begin_finalize tenant upload_id sha size artifact_id now s))),
    drive-Within env' _ (inr (omega (arith, k), omega arith)),
  )
