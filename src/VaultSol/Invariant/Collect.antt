-- ===== src/VaultSol/Invariant/Collect.antt =====
-- The rows and files under the garbage collector of vaultdrop.py.
use qwen_3_8_evals.Prelude.{
  take, ℕ, zero, suc, ◌≡◌, refl, ◌≢◌, false, inl, inr, Option, none, some, List, [], ◌∷◌, All,
  arith, find, delete, any, count, Dict, lookup, without, lookup-without, All-delete, All-find,
  find-holds, Bool-cases, ◌==◌,
}
use qwen_3_8_evals.VaultSol.Types.{Blob, Artifact, Store}
use qwen_3_8_evals.VaultSol.Finalize.{blob_at, refers}
use qwen_3_8_evals.VaultSol.Gc.{
  batch_size, unreferenced_at, Batch, Renamed, rename_blob, forget_blob, collect_row, collect,
  unlink_all, unlink_trash, gc_batch, gc_batches,
}
use qwen_3_8_evals.VaultSol.Invariant.{RefsExact, Backed, DistinctHashes, Holds, IsValid}

any-collect :
    (h digest : ℕ) (bs : List Blob)
    → digest ≢ h
    → any (blob_at h) (delete (unreferenced_at digest) bs) ≡ any (blob_at h) bs
unfolding any delete
any-collect h digest [] ne = refl
any-collect h digest (b ∷ bs) ne = ground (arith, any-collect h digest bs ne)

any-collect_false :
    (h digest : ℕ) (bs : List Blob)
    → any (blob_at h) bs ≡ false
    → any (blob_at h) (delete (unreferenced_at digest) bs) ≡ false
unfolding any delete
any-collect_false h digest [] e = refl
any-collect_false h digest (b ∷ bs) e = ground (arith, any-collect_false h digest bs)

pub hashes-collect :
    (digest : ℕ) (bs : List Blob)
    → DistinctHashes bs
    → DistinctHashes (delete (unreferenced_at digest) bs)
unfolding delete
hashes-collect digest [] d = tt
hashes-collect digest (b ∷ bs) d =
    ground (arith, hashes-collect digest bs d.1, any-collect_false b.content_hash digest bs)

Backed-collect :
    (digest : ℕ) (bs : List Blob) (arts : List Artifact)
    → count (refers digest) arts ≡ 0
    → Backed bs arts
    → Backed (delete (unreferenced_at digest) bs) arts
unfolding count
Backed-collect digest bs [] z k = tt
Backed-collect digest bs (a ∷ arts) z k =
    ground (arith, Backed-collect digest bs arts, any-collect a.sha256 digest bs)

module _ (sha256 : List ℕ → ℕ) where
  Holds-without :
      (digest : ℕ) (files : Dict (List ℕ)) (arts : List Artifact)
      → count (refers digest) arts ≡ 0
      → All (λ a. Holds sha256 a (lookup a.sha256 files)) arts
      → All (λ a. Holds sha256 a (lookup a.sha256 (without digest files))) arts
  unfolding count
  Holds-without digest files [] z h = tt
  Holds-without digest files (a ∷ arts) z h =
      ground (arith, Holds-without digest files arts, lookup-without digest a.sha256 files)

  -- Moving the file of a digest that no artifact refers to, and dropping its row.
  rename-forget-IsValid :
      (file : Option (List ℕ)) (digest tag size : ℕ) (b : Batch)
      → count (refers digest) b.store.artifacts ≡ 0
      → IsValid sha256 b.store
      → IsValid sha256 (forget_blob digest (rename_blob file digest tag size b)).store
  unfolding rename_blob forget_blob
  rename-forget-IsValid none digest tag size b z v = record {
    refs = All-delete _ (unreferenced_at digest) b.store.blobs v.refs;
    backed = Backed-collect digest b.store.blobs b.store.artifacts z v.backed;
    served = v.served;
    distinct_ids = v.distinct_ids;
    distinct_hashes = hashes-collect digest b.store.blobs v.distinct_hashes;
  }
  rename-forget-IsValid (some content) digest tag size b z v = record {
    refs = All-delete _ (unreferenced_at digest) b.store.blobs v.refs;
    backed = Backed-collect digest b.store.blobs b.store.artifacts z v.backed;
    served = Holds-without digest b.store.blob_files b.store.artifacts z v.served;
    distinct_ids = v.distinct_ids;
    distinct_hashes = hashes-collect digest b.store.blobs v.distinct_hashes;
  }

  -- A row whose refcount is zero has no artifact.
  row_unreferenced :
      (digest : ℕ) (bs : List Blob) (arts : List Artifact) (row : Blob)
      → RefsExact arts bs
      → find (blob_at digest) bs ≡ some row
      → row.refcount ≡ 0
      → count (refers digest) arts ≡ 0
  row_unreferenced digest bs arts row h e z =
      ground (arith, All-find _ (blob_at digest) bs row h e, find-holds (blob_at digest) bs row e)

  collect_row-IsValid :
      (found : Option Blob) (digest tag : ℕ) (b : Batch)
      → find (blob_at digest) b.store.blobs ≡ found
      → IsValid sha256 b.store
      → IsValid sha256 (collect_row found digest tag b).store
  unfolding collect_row
  collect_row-IsValid none digest tag b e v = v
  collect_row-IsValid (some row) digest tag b e v = elim (Bool-cases (row.refcount == 0)) [
    | inl zero_refs ↦ rw zero_refs (
        rename-forget-IsValid (lookup digest b.store.blob_files) digest tag row.size b
          (row_unreferenced digest b.store.blobs b.store.artifacts row v.refs e (ground arith)) v)
    | inr some_refs ↦ rw some_refs v
  ]

  pub collect-IsValid :
      (tag : ℕ → ℕ) (batch : List ℕ) (b : Batch)
      → IsValid sha256 b.store
      → IsValid sha256 (collect tag batch b).store
  unfolding collect
  collect-IsValid tag [] b v = v
  collect-IsValid tag (digest ∷ rest) b v =
      collect-IsValid tag rest _ (collect_row-IsValid _ digest (tag digest) b refl v)

  unlink_all-IsValid :
      (renamed : List Renamed) (s : Store)
      → IsValid sha256 s
      → IsValid sha256 (unlink_all renamed s)
  unlink_all-IsValid [] s v = v
  unlink_all-IsValid (r ∷ rest) s v = unlink_all-IsValid rest (unlink_trash r s) (record {
    refs = v.refs;
    backed = v.backed;
    served = v.served;
    distinct_ids = v.distinct_ids;
    distinct_hashes = v.distinct_hashes;
  })

  -- Whatever digests the batch names, stale ones too.
  pub gc_batch-IsValid :
      (tag : ℕ → ℕ) (batch : List ℕ) (s : Store)
      → IsValid sha256 s
      → IsValid sha256 (gc_batch tag batch s).store
  unfolding gc_batch
  gc_batch-IsValid tag batch s v =
      let start : Batch = record { store = s; renamed = []; removed = 0 } in
      let done = collect tag batch start in
      unlink_all-IsValid done.renamed done.store (collect-IsValid tag batch start v)

  pub gc_batches-IsValid :
      (tag : ℕ → ℕ) (fuel : ℕ) (left : List ℕ) (collected freed : ℕ) (s : Store)
      → IsValid sha256 s
      → IsValid sha256 (gc_batches tag fuel left collected freed s).2
  unfolding gc_batches
  gc_batches-IsValid tag zero left collected freed s v = v
  gc_batches-IsValid tag (suc fuel) left collected freed s v =
      gc_batches-IsValid tag fuel _ _ _ _ (gc_batch-IsValid tag (take batch_size left) s v)
