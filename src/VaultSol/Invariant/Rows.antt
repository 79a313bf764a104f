-- ===== src/VaultSol/Invariant/Rows.antt =====
-- The rows of blobs and artifacts under each statement that vaultdrop.py runs.
use qwen_3_8_evals.Prelude.{
  ℕ, ◌+◌, String, ◌≡◌, refl, ◌≢◌, true, false, some, List, [], ◌∷◌, arith, find, update, delete,
  any, count, if◌then◌else◌, ◌==◌,
}
use qwen_3_8_evals.VaultSol.Types.{Blob, Artifact}
use qwen_3_8_evals.VaultSol.Finalize.{
  artifact_owned, artifact_at, blob_at, refers, upsert_blob, increment,
}
use qwen_3_8_evals.VaultSol.Artifacts.{counted_at, decrement}
use qwen_3_8_evals.VaultSol.Invariant.{RefsExact, Backed, DistinctIds, DistinctHashes}

any-upsert :
    (h digest size now : ℕ) (bs : List Blob)
    → any (blob_at h) (upsert_blob digest size now bs)
      ≡ (if digest == h then true else any (blob_at h) bs)
unfolding any upsert_blob
any-upsert h digest size now [] = ground arith
any-upsert h digest size now (b ∷ bs) = ground (arith, any-upsert h digest size now bs)

pub any-increment :
    (h digest : ℕ) (bs : List Blob)
    → any (blob_at h) (update (blob_at digest) increment bs) ≡ any (blob_at h) bs
unfolding any update
any-increment h digest [] = refl
any-increment h digest (b ∷ bs) = ground (arith, any-increment h digest bs)

pub any-decrement :
    (h digest : ℕ) (bs : List Blob)
    → any (blob_at h) (update (counted_at digest) decrement bs) ≡ any (blob_at h) bs
unfolding any update
any-decrement h digest [] = refl
any-decrement h digest (b ∷ bs) = ground (arith, any-decrement h digest bs)

-- A digest with no row has no artifact.
pub count-zero_of_unbacked :
    (h : ℕ) (bs : List Blob) (arts : List Artifact)
    → Backed bs arts
    → any (blob_at h) bs ≡ false
    → count (refers h) arts ≡ 0
unfolding count
count-zero_of_unbacked h bs [] k e = refl
count-zero_of_unbacked h bs (a ∷ arts) k e = ground (arith, count-zero_of_unbacked h bs arts k.1)

refs-increment :
    (a : Artifact) (arts : List Artifact) (bs : List Blob)
    → RefsExact arts bs
    → RefsExact (a ∷ arts) (update (blob_at a.sha256) increment bs)
unfolding update count
refs-increment a arts [] h = tt
refs-increment a arts (b ∷ bs) h = (ground arith, refs-increment a arts bs h.1)

refs-upsert :
    (a : Artifact) (size now : ℕ) (arts : List Artifact) (bs : List Blob)
    → (any (blob_at a.sha256) bs ≡ false → count (refers a.sha256) arts ≡ 0)
    → RefsExact arts bs
    → RefsExact (a ∷ arts) (update (blob_at a.sha256) increment (upsert_blob a.sha256 size now bs))
unfolding update count upsert_blob any
refs-upsert a size now arts [] z h = (ground arith, tt)
refs-upsert a size now arts (b ∷ bs) z h =
    ground (arith, refs-increment a arts bs h.1, refs-upsert a size now arts bs)

-- A published artifact is counted, in the row that was there or in a new one.
pub refs-publish :
    (a : Artifact) (size now : ℕ) (arts : List Artifact) (bs : List Blob)
    → Backed bs arts
    → RefsExact arts bs
    → RefsExact (a ∷ arts) (update (blob_at a.sha256) increment (upsert_blob a.sha256 size now bs))
refs-publish a size now arts bs k h =
    refs-upsert a size now arts bs (count-zero_of_unbacked a.sha256 bs arts k) h

pub any-publish :
    (h digest size now : ℕ) (bs : List Blob)
    → any (blob_at h) (update (blob_at digest) increment (upsert_blob digest size now bs))
      ≡ (if digest == h then true else any (blob_at h) bs)
any-publish h digest size now bs = rw any-increment (any-upsert h digest size now bs)

pub Backed-publish :
    (a : Artifact) (size now : ℕ) (bs : List Blob) (arts : List Artifact)
    → Backed bs arts
    → Backed (update (blob_at a.sha256) increment (upsert_blob a.sha256 size now bs)) (a ∷ arts)
Backed-publish a size now bs [] k = (ground (arith, any-publish a.sha256 a.sha256 size now bs), tt)
Backed-publish a size now bs (x ∷ arts) k =
    let (new, old) = Backed-publish a size now bs arts k.1 in
    (new, (ground (arith, any-publish x.sha256 a.sha256 size now bs), old))

delete-absent :
    (tenant : String) (i : ℕ) (arts : List Artifact)
    → any (artifact_at i) arts ≡ false
    → delete (artifact_owned tenant i) arts ≡ arts
unfolding any delete
delete-absent tenant i [] e = refl
delete-absent tenant i (a ∷ arts) e = ground (arith, delete-absent tenant i arts)

-- A DELETE takes away the one artifact that the SELECT found.
pub count-delete :
    (tenant : String) (i h : ℕ) (arts : List Artifact) (a : Artifact)
    → DistinctIds arts
    → find (artifact_owned tenant i) arts ≡ some a
    → count (refers h) arts
      ≡ (if a.sha256 == h then 1 else 0) + count (refers h) (delete (artifact_owned tenant i) arts)
unfolding find delete count
count-delete tenant i h [] a d e = cc
count-delete tenant i h (x ∷ arts) a d e =
    ground (arith, count-delete tenant i h arts a d.1, delete-absent tenant i arts)

any-delete :
    (tenant : String) (i j : ℕ) (arts : List Artifact)
    → any (artifact_at j) arts ≡ false
    → any (artifact_at j) (delete (artifact_owned tenant i) arts) ≡ false
unfolding any delete
any-delete tenant i j [] e = refl
any-delete tenant i j (a ∷ arts) e = ground (arith, any-delete tenant i j arts)

pub distinct-delete :
    (tenant : String) (i : ℕ) (arts : List Artifact)
    → DistinctIds arts
    → DistinctIds (delete (artifact_owned tenant i) arts)
unfolding delete
distinct-delete tenant i [] d = tt
distinct-delete tenant i (a ∷ arts) d =
    ground (arith, distinct-delete tenant i arts d.1, any-delete tenant i a.id arts)

pub refs-delete :
    (tenant : String) (i : ℕ) (arts : List Artifact) (a : Artifact) (bs : List Blob)
    → DistinctIds arts
    → find (artifact_owned tenant i) arts ≡ some a
    → RefsExact arts bs
    → RefsExact (delete (artifact_owned tenant i) arts) (update (counted_at a.sha256) decrement bs)
unfolding update
refs-delete tenant i arts a [] d e h = tt
refs-delete tenant i arts a (b ∷ bs) d e h =
    ground (
      arith,
      count-delete tenant i b.content_hash arts a d e,
      refs-delete tenant i arts a bs d e h.1,
    )

any-upsert_false :
    (h digest size now : ℕ) (bs : List Blob)
    → digest ≢ h
    → any (blob_at h) bs ≡ false
    → any (blob_at h) (upsert_blob digest size now bs) ≡ false
any-upsert_false h digest size now bs ne e = ground (arith, any-upsert h digest size now bs)

hashes-upsert :
    (digest size now : ℕ) (bs : List Blob)
    → DistinctHashes bs
    → DistinctHashes (upsert_blob digest size now bs)
unfolding upsert_blob any
hashes-upsert digest size now [] d = (refl, tt)
hashes-upsert digest size now (b ∷ bs) d = ground (
  arith,
  hashes-upsert digest size now bs d.1,
  any-upsert_false b.content_hash digest size now bs,
)

hashes-increment :
    (digest : ℕ) (bs : List Blob)
    → DistinctHashes bs
    → DistinctHashes (update (blob_at digest) increment bs)
unfolding update
hashes-increment digest [] d = tt
hashes-increment digest (b ∷ bs) d =
    ground (arith, hashes-increment digest bs d.1, any-increment b.content_hash digest bs)

pub hashes-publish :
    (digest size now : ℕ) (bs : List Blob)
    → DistinctHashes bs
    → DistinctHashes (update (blob_at digest) increment (upsert_blob digest size now bs))
hashes-publish digest size now bs d = hashes-increment digest _ (hashes-upsert digest size now bs d)

pub hashes-decrement :
    (digest : ℕ) (bs : List Blob)
    → DistinctHashes bs
    → DistinctHashes (update (counted_at digest) decrement bs)
unfolding update
hashes-decrement digest [] d = tt
hashes-decrement digest (b ∷ bs) d =
    ground (arith, hashes-decrement digest bs d.1, any-decrement b.content_hash digest bs)

pub Backed-decrement :
    (digest : ℕ) (bs : List Blob) (arts : List Artifact)
    → Backed bs arts
    → Backed (update (counted_at digest) decrement bs) arts
Backed-decrement digest bs [] k = tt
Backed-decrement digest bs (a ∷ arts) k =
    (rw any-decrement k.0, Backed-decrement digest bs arts k.1)
