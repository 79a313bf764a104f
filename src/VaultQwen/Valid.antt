-- ===== src/VaultQwen/Valid.antt =====
-- What holds of the threads and the store of vaultdrop/qwen-v3, digest by digest.
pub mod Local
pub mod Stores
pub mod Commits
pub mod Restart
pub mod Recovered
pub mod Starts
pub mod Calls
pub mod Moves
pub mod Sweeps
pub mod Steps
pub mod Runs
use qwen_3_8_evals.Prelude.{
  ℕ, ◌≤◌, ◌≡◌, Bool, true, false, Option, none, some, List, All, count, find, lookup, Distinct,
}
use qwen_3_8_evals.VaultQwen.Types.{BlobState, active, collecting, Artifact, Blob, Pass, Store}
use qwen_3_8_evals.VaultQwen.Blobs.{Job, blob_at, refers, is_present, last_id}
use qwen_3_8_evals.VaultQwen.Workers.{
  Worker, idle, assembling, losing, staged, waiting, linking, settling, replacing, relinking,
  linked, counting, deleting, sweeping, answered,
}
use qwen_3_8_evals.VaultQwen.System.{System, owns, in_use}

-- The row of a digest, for the number of artifacts that refer to it and whether its file is there.
abbrev pub Backing : BlobState → ℕ → Bool → Type 0
Backing active n there = there ≡ true
Backing collecting n there = n ≡ 0

abbrev pub Sound : Option Blob → ℕ → Bool → Type 0
Sound none n there = n ≡ 0
Sound (some b) n there = (b.refcount ≡ n) × Backing b.state n there

abbrev pub SoundAt : ℕ → Store → Type 0
SoundAt h s =
    Sound (find (blob_at h) s.blobs) (count (refers h) s.artifacts)
      (is_present (lookup h s.blob_files))

-- A row names a pass that has begun.
abbrev pub Begun : ℕ → Option ℕ → Type 0
Begun last none = Unit
Begun last (some pass) = pass ≤ last

-- The file that a thread owns is there, and no active row names it.
abbrev pub Held : ℕ → Store → Type 0
Held h s = (is_present (lookup h s.blob_files) ≡ true) × (in_use h s ≡ false)

module _ (sha256 : List ℕ → ℕ) where
  pub record StoreIsValid (s : Store) : Type 0 where
    pub sound : (h : ℕ) → SoundAt h s
    pub addressed :
        (h : ℕ) (content : List ℕ) → lookup h s.blob_files ≡ some content → sha256 content ≡ h
    pub ids : Distinct (λ a. a.id) s.artifacts
    pub hashes : Distinct (λ b. b.hash) s.blobs
    pub begun : All (λ b. Begun (last_id s.passes) b.gc_pass_id) s.blobs

  abbrev pub Verified : Job → Type 0
  Verified j = sha256 j.content ≡ j.digest

  abbrev pub Tidy : Worker → Type 0
  Tidy (staged j) = Verified j
  Tidy (waiting j) = Verified j
  Tidy (linking j) = Verified j
  Tidy (settling j) = Verified j
  Tidy (replacing j) = Verified j
  Tidy (relinking j) = Verified j
  Tidy (linked j) = Verified j
  Tidy (counting j) = Verified j
  Tidy (sweeping _ _ _ _ left) = Distinct (λ b. b.hash) left
  Tidy idle = Unit
  Tidy (assembling _) = Unit
  Tidy (losing _) = Unit
  Tidy (deleting _) = Unit
  Tidy (answered _) = Unit

  pub record IsValid (s : System) : Type 0 where
    pub store_valid : StoreIsValid s.store
    pub held : (i h : ℕ) → owns h (s.worker i) ≡ true → Held h s.store
    pub single : (i j h : ℕ) → owns h (s.worker i) ≡ true → owns h (s.worker j) ≡ true → i ≡ j
    pub tidy : (i : ℕ) → Tidy (s.worker i)
