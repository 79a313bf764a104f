-- ===== src/VaultSol/Invariant/Recovery.antt =====
-- `recover` of vaultdrop.py after a crash at any of the points between two writes.
use qwen_3_8_evals.Prelude.{
  ℕ, String, ◌≡◌, refl, ap, ◌∙◌, ◌⊎◌, true, inl, inr, Option, none, some, List, [], ◌∷◌, All,
  length, take, arith, find, update, any, count, Dict, lookup, lookup-put, Option-cases,
  if◌then◌else◌,
}
use qwen_3_8_evals.VaultSol.Types.{Blob, Artifact, TrashFile, Store}
use qwen_3_8_evals.VaultSol.Uploads.{write_temp, install_chunk}
use qwen_3_8_evals.VaultSol.Finalize.{
  blob_at, refers, freeze_upload, install_blob, commit_artifact, publish,
}
use qwen_3_8_evals.Effect.{◌>>=◌}
use qwen_3_8_evals.VaultSol.Gc.{
  Batch, Renamed, unlink_trash, unlink_all, collect, collect_row, rename_blob, forget_blob,
}
use qwen_3_8_evals.VaultSol.Recover.{repair_rows, restore_trash, known_files, recover}
use qwen_3_8_evals.VaultSol.Invariant.{
  IsValid, Holds, Served, RefsExact, Backed, DistinctIds, DistinctHashes,
}
use qwen_3_8_evals.VaultSol.Invariant.Collect.{collect-IsValid}
use qwen_3_8_evals.VaultSol.Invariant.Methods.{
  Untouched-IsValid, install_blob-IsValid, install-commit-IsValid, freeze_upload-Untouched,
}

abbrev pub recounted : List Artifact → List Blob → List Blob
recounted arts bs =
    update (λ _. true) (λ b. record b { refcount = count (refers b.content_hash) arts }) bs

pub refs-recounted : (arts : List Artifact) (bs : List Blob) → RefsExact arts (recounted arts bs)
unfolding update
refs-recounted arts [] = tt
refs-recounted arts (b ∷ bs) = (refl, refs-recounted arts bs)

pub any-recounted :
    (h : ℕ) (arts : List Artifact) (bs : List Blob)
    → any (blob_at h) (recounted arts bs) ≡ any (blob_at h) bs
unfolding update any
any-recounted h arts [] = refl
any-recounted h arts (b ∷ bs) = rw (any-recounted h arts bs)

Backed-recounted :
    (all : List Artifact) (bs : List Blob) (arts : List Artifact)
    → Backed bs arts
    → Backed (recounted all bs) arts
Backed-recounted all bs [] k = tt
Backed-recounted all bs (a ∷ arts) k = (rw any-recounted k.0, Backed-recounted all bs arts k.1)

hashes-recounted :
    (arts : List Artifact) (bs : List Blob) → DistinctHashes bs → DistinctHashes (recounted arts bs)
unfolding update
hashes-recounted arts [] d = tt
hashes-recounted arts (b ∷ bs) d =
    (rw (any-recounted b.content_hash arts bs) d.0, hashes-recounted arts bs d.1)

-- A file that is there is not overwritten from the trash.
pub restore_trash-keeps :
    (bs : List Blob) (trash : List TrashFile) (files : Dict (List ℕ)) (h : ℕ) (c : List ℕ)
    → lookup h files ≡ some c
    → lookup h (restore_trash bs trash files) ≡ some c
unfolding restore_trash
restore_trash-keeps bs [] files h c e = e
restore_trash-keeps bs (f ∷ trash) files h c e =
    restore_trash-keeps bs trash _ h c (ground (arith, lookup-put f.digest h f.content files))

pub lookup-known_files :
    (bs : List Blob) (files : Dict (List ℕ)) (h : ℕ)
    → lookup h (known_files bs files) ≡ (if any (blob_at h) bs then lookup h files else none)
unfolding lookup known_files
lookup-known_files bs [] h = ground arith
lookup-known_files bs ((d, c) ∷ files) h = ground (arith, lookup-known_files bs files h)

-- The files of a batch have moved, and its transaction has not committed.
abbrev pub half_collected : (ℕ → ℕ) → List ℕ → Store → Store
half_collected tag batch s =
    let t = (collect tag batch (record { store = s; renamed = []; removed = 0 })).store in
    record s { blob_files = t.blob_files; trash = t.trash }

-- The transaction of a batch has committed, and the first `unlinked` of its files in the trash are gone.
abbrev pub committed_batch : (ℕ → ℕ) → List ℕ → ℕ → Store → Store
committed_batch tag batch unlinked s =
    let b = collect tag batch (record { store = s; renamed = []; removed = 0 }) in
    unlink_all (take unlinked b.renamed) b.store

module _ (sha256 : List ℕ → ℕ) where
  -- A valid store, but for the refcounts.
  pub record IsRecoverable (s : Store) : Type 0 where
    pub backed : Backed s.blobs s.artifacts
    pub served : Served sha256 s
    pub distinct_ids : DistinctIds s.artifacts
    pub distinct_hashes : DistinctHashes s.blobs

  Holds-recover :
      (bs : List Blob) (trash : List TrashFile) (files : Dict (List ℕ)) (a : Artifact)
      → any (blob_at a.sha256) bs ≡ true
      → Holds sha256 a (lookup a.sha256 files)
      → Holds sha256 a (lookup a.sha256 (known_files bs (restore_trash bs trash files)))
  Holds-recover bs trash files a k h = elim (Option-cases (lookup a.sha256 files)) [
    | inl missing ↦ absurd (rw missing at h)
    | inr (c, e) ↦
        rw
          (
            lookup-known_files bs (restore_trash bs trash files) a.sha256,
            k,
            restore_trash-keeps bs trash files a.sha256 c e,
          )
          (rw e at h)
  ]

  served-recover :
      (bs : List Blob) (trash : List TrashFile) (files : Dict (List ℕ)) (arts : List Artifact)
      → Backed bs arts
      → All (λ a. Holds sha256 a (lookup a.sha256 files)) arts
      → All
          (λ a. Holds sha256 a (lookup a.sha256 (known_files bs (restore_trash bs trash files))))
          arts
  served-recover bs trash files [] k h = tt
  served-recover bs trash files (a ∷ arts) k h =
      (Holds-recover bs trash files a k.0 h.0, served-recover bs trash files arts k.1 h.1)

  pub recover-IsValid : (s : Store) → IsRecoverable s → IsValid sha256 (recover s)
  unfolding recover repair_rows
  recover-IsValid s r = record {
    refs = refs-recounted s.artifacts s.blobs;
    backed = Backed-recounted s.artifacts s.blobs s.artifacts r.backed;
    served =
        served-recover _ s.trash s.blob_files s.artifacts
          (Backed-recounted s.artifacts s.blobs s.artifacts r.backed) r.served;
    distinct_ids = r.distinct_ids;
    distinct_hashes = hashes-recounted s.artifacts s.blobs r.distinct_hashes;
  }

  -- What a crash may leave of a request that had begun on `s`.
  pub data Interrupted (s : Store) : Store → Type 0 where
    -- in `put_chunk`: a temporary, or a chunk file whose row was not committed
    chunk_temp :
        (upload_id tag : ℕ) (content : List ℕ)
        → Interrupted s (write_temp (some upload_id) tag content s)
    chunk_installed :
        (upload_id index tag : ℕ) (content : List ℕ)
        → Interrupted s (install_chunk upload_id index tag content s)
    -- in `finalize`: after the freeze, while the chunks are assembled, after the move of the verified
    -- blob, after the commit
    upload_frozen :
        (tenant : String) (upload_id digest size : ℕ)
        → Interrupted s (freeze_upload tenant upload_id digest size s).1
    blob_temp :
        (tenant : String) (upload_id digest size tag : ℕ) (content : List ℕ)
        → Interrupted s
            (write_temp none tag content (freeze_upload tenant upload_id digest size s).1)
    blob_installed :
        (tenant : String) (upload_id digest size tag : ℕ) (content : List ℕ)
        → sha256 content ≡ digest
        → Interrupted s
            (install_blob digest tag content (freeze_upload tenant upload_id digest size s).1)
    published :
        (a : Artifact) (tag : ℕ) (content : List ℕ)
        → length content ≡ a.size
        → sha256 content ≡ a.sha256
        → Interrupted s
            (commit_artifact a (
              install_blob a.sha256 tag content
                (freeze_upload a.tenant_id a.upload_id a.sha256 a.size s).1)).1
    -- in `gc`: files of a batch moved to the trash, and the transaction not committed; the transaction
    -- committed, and so many of the files in the trash unlinked
    blobs_renamed : (tag : ℕ → ℕ) (batch : List ℕ) → Interrupted s (half_collected tag batch s)
    batch_committed :
        (tag : ℕ → ℕ) (batch : List ℕ) (unlinked : ℕ)
        → Interrupted s (committed_batch tag batch unlinked s)

  valid-IsRecoverable : (s : Store) → IsValid sha256 s → IsRecoverable s
  valid-IsRecoverable s v = record {
    backed = v.backed;
    served = v.served;
    distinct_ids = v.distinct_ids;
    distinct_hashes = v.distinct_hashes;
  }

rename-artifacts :
    (file : Option (List ℕ)) (d tag size : ℕ) (b : Batch)
    → (rename_blob file d tag size b).store.artifacts ≡ b.store.artifacts
unfolding rename_blob
rename-artifacts none d tag size b = refl
rename-artifacts (some c) d tag size b = refl

step-artifacts :
    (found : Option Blob) (d tag : ℕ) (b : Batch)
    → (collect_row found d tag b).store.artifacts ≡ b.store.artifacts
unfolding collect_row forget_blob
step-artifacts none d tag b = refl
step-artifacts (some row) d tag b =
    ground (arith, rename-artifacts (lookup d b.store.blob_files) d tag row.size b)

collect-artifacts :
    (tag : ℕ → ℕ) (batch : List ℕ) (b : Batch)
    → (collect tag batch b).store.artifacts ≡ b.store.artifacts
unfolding collect
collect-artifacts tag [] b = refl
collect-artifacts tag (d ∷ batch) b =
    let found = find (blob_at d) b.store.blobs in
    collect-artifacts tag batch (collect_row found d (tag d) b) ∙ step-artifacts found d (tag d) b

unlink_all-artifacts : (rs : List Renamed) (s : Store) → (unlink_all rs s).artifacts ≡ s.artifacts
unlink_all-artifacts [] s = refl
unlink_all-artifacts (r ∷ rs) s = unlink_all-artifacts rs (unlink_trash r s)

-- The artifacts that a crashed request leaves: those before it, and perhaps a new one.
abbrev pub Grown : List Artifact → List Artifact → Type 0
Grown arts all = (all ≡ arts) ⊎ ((a : Artifact) × (all ≡ a ∷ arts))

commit-artifacts :
    (a : Artifact) (s : Store)
    → ((commit_artifact a s).1.artifacts ≡ s.artifacts)
      ⊎ ((commit_artifact a s).1.artifacts ≡ a ∷ s.artifacts)
unfolding commit_artifact publish ◌>>=◌
commit-artifacts a s = ground arith

install-artifacts :
    (digest tag : ℕ) (content : List ℕ) (s : Store)
    → (install_blob digest tag content s).artifacts ≡ s.artifacts
unfolding install_blob
install-artifacts digest tag content s = refl

pub Interrupted-Grown :
    (sha256 : List ℕ → ℕ) (s t : Store) → Interrupted sha256 s t → Grown s.artifacts t.artifacts
unfolding write_temp install_chunk install_blob
Interrupted-Grown sha256 s _ (chunk_temp upload_id tag content) = inl refl
Interrupted-Grown sha256 s _ (chunk_installed upload_id index tag content) = inl refl
Interrupted-Grown sha256 s _ (upload_frozen tenant upload_id digest size) =
    inl (freeze_upload-Untouched tenant upload_id digest size s).artifacts
Interrupted-Grown sha256 s _ (blob_installed tenant upload_id digest size tag content e) =
    inl (freeze_upload-Untouched tenant upload_id digest size s).artifacts
Interrupted-Grown sha256 s _ (published a tag content l e) =
    let f = (freeze_upload a.tenant_id a.upload_id a.sha256 a.size s).1 in
    let same = (freeze_upload-Untouched a.tenant_id a.upload_id a.sha256 a.size s).artifacts in
    elim (commit-artifacts a (install_blob a.sha256 tag content f)) [
      | inl p ↦ inl (p ∙ same)
      | inr p ↦ inr (a, p ∙ ap (λ arts. a ∷ arts) same)
    ]
Interrupted-Grown sha256 s _ (blobs_renamed tag batch) = inl refl
Interrupted-Grown sha256 s _ (blob_temp tenant upload_id digest size tag content) =
    inl (freeze_upload-Untouched tenant upload_id digest size s).artifacts
Interrupted-Grown sha256 s _ (batch_committed tag batch unlinked) =
    let b = collect tag batch (record { store = s; renamed = []; removed = 0 }) in
    inl (
      unlink_all-artifacts (take unlinked b.renamed) b.store
      ∙ collect-artifacts tag batch (record { store = s; renamed = []; removed = 0 }))

module _ (sha256 : List ℕ → ℕ)
    (same_length : (x y : List ℕ) → sha256 x ≡ sha256 y → length x ≡ length y) where
  frozen-IsValid :
      (tenant : String) (upload_id digest size : ℕ) (s : Store)
      → IsValid sha256 s
      → IsValid sha256 (freeze_upload tenant upload_id digest size s).1
  frozen-IsValid tenant upload_id digest size s v =
      Untouched-IsValid sha256 s _ (freeze_upload-Untouched tenant upload_id digest size s) v

  unlink_all-IsValid :
      (rs : List Renamed) (s : Store) → IsValid sha256 s → IsValid sha256 (unlink_all rs s)
  unlink_all-IsValid [] s v = v
  unlink_all-IsValid (r ∷ rs) s v = unlink_all-IsValid rs (unlink_trash r s) (record {
    refs = v.refs;
    backed = v.backed;
    served = v.served;
    distinct_ids = v.distinct_ids;
    distinct_hashes = v.distinct_hashes;
  })

  pub Interrupted-IsRecoverable :
      (s t : Store) → IsValid sha256 s → Interrupted sha256 s t → IsRecoverable sha256 t
  unfolding write_temp install_chunk
  Interrupted-IsRecoverable s _ v (chunk_temp upload_id tag content) = record {
    backed = v.backed;
    served = v.served;
    distinct_ids = v.distinct_ids;
    distinct_hashes = v.distinct_hashes;
  }
  Interrupted-IsRecoverable s _ v (chunk_installed upload_id index tag content) = record {
    backed = v.backed;
    served = v.served;
    distinct_ids = v.distinct_ids;
    distinct_hashes = v.distinct_hashes;
  }
  Interrupted-IsRecoverable s _ v (upload_frozen tenant upload_id digest size) =
      valid-IsRecoverable sha256 _ (frozen-IsValid tenant upload_id digest size s v)
  Interrupted-IsRecoverable s _ v (blob_installed tenant upload_id digest size tag content e) =
      valid-IsRecoverable sha256 _ (
        install_blob-IsValid sha256 same_length digest tag content _ e
          (frozen-IsValid tenant upload_id digest size s v))
  Interrupted-IsRecoverable s _ v (published a tag content l e) = valid-IsRecoverable sha256 _ (
      install-commit-IsValid sha256 same_length a tag content _ l e
        (frozen-IsValid a.tenant_id a.upload_id a.sha256 a.size s v))
  Interrupted-IsRecoverable s _ v (blob_temp tenant upload_id digest size tag content) =
      let f = frozen-IsValid tenant upload_id digest size s v in
      record {
        backed = f.backed;
        served = f.served;
        distinct_ids = f.distinct_ids;
        distinct_hashes = f.distinct_hashes;
      }
  Interrupted-IsRecoverable s _ v (batch_committed tag batch unlinked) =
      let b : Batch = record { store = s; renamed = []; removed = 0 } in
      valid-IsRecoverable sha256 _ (
        unlink_all-IsValid (take unlinked (collect tag batch b).renamed) (collect tag batch b).store
          (collect-IsValid sha256 tag batch b v))
  Interrupted-IsRecoverable s _ v (blobs_renamed tag batch) =
      let b : Batch = record { store = s; renamed = []; removed = 0 } in
      record {
        backed = v.backed;
        served =
            rw (collect-artifacts tag batch b) at (collect-IsValid sha256 tag batch b v).served;
        distinct_ids = v.distinct_ids;
        distinct_hashes = v.distinct_hashes;
      }
