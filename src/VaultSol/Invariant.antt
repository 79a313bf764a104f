-- ===== src/VaultSol/Invariant.antt =====
-- What holds of a `Store` of vaultdrop.py between requests.
pub mod Rows
pub mod Collect
pub mod Methods
pub mod Recovery
use qwen_3_8_evals.Prelude.{
  ℕ, ◌≡◌, true, false, Bool, Option, none, some, List, [], ◌∷◌, All, length, any, count, lookup,
}
use qwen_3_8_evals.VaultSol.Types.{Blob, Artifact, Store}
use qwen_3_8_evals.VaultSol.Finalize.{artifact_at, blob_at, refers}

-- Each row's refcount is the number of artifacts that refer to it.
abbrev pub RefsExact : List Artifact → List Blob → Type 0
RefsExact artifacts blobs = All (λ b. b.refcount ≡ count (refers b.content_hash) artifacts) blobs

-- The foreign key of artifacts: the digest has a row.
abbrev pub Backed : List Blob → List Artifact → Type 0
Backed blobs artifacts = All (λ a. any (blob_at a.sha256) blobs ≡ true) artifacts

-- No two artifacts share an id.
abbrev pub DistinctIds : List Artifact → Type 0
DistinctIds [] = Unit
DistinctIds (a ∷ rest) = (any (artifact_at a.id) rest ≡ false) × DistinctIds rest

-- No two blob rows share a digest.
abbrev pub DistinctHashes : List Blob → Type 0
DistinctHashes [] = Unit
DistinctHashes (b ∷ rest) = (any (blob_at b.content_hash) rest ≡ false) × DistinctHashes rest

module _ (sha256 : List ℕ → ℕ) where
  -- The file is there, with the digest and the size of the artifact.
  abbrev pub Holds : Artifact → Option (List ℕ) → Type 0
  Holds a none = ⊥
  Holds a (some content) = (sha256 content ≡ a.sha256) × (length content ≡ a.size)

  abbrev pub Served : Store → Type 0
  Served s = All (λ a. Holds a (lookup a.sha256 s.blob_files)) s.artifacts

  pub record IsValid (s : Store) : Type 0 where
    pub refs : RefsExact s.artifacts s.blobs
    pub backed : Backed s.blobs s.artifacts
    pub served : Served s
    pub distinct_ids : DistinctIds s.artifacts
    pub distinct_hashes : DistinctHashes s.blobs
