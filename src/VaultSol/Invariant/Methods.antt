-- ===== src/VaultSol/Invariant/Methods.antt =====
-- The methods of vaultdrop.py that publish, delete or collect, and the validity of the store.
use qwen_3_8_evals.Prelude.{
  true, Bool, ℕ, String, ◌≡◌, refl, sym, ◌∙◌, false, ◌||◌, not, inl, inr, Option, none, some, List,
  [], ◌∷◌, All, length, arith, find, any, Dict, lookup, put, lookup-put, All-delete, Option-cases,
  Bool-cases, ◌==◌,
}
use qwen_3_8_evals.VaultSol.Types.{Upload, Artifact, Store}
use qwen_3_8_evals.Effect.{
  or_raise, pure, modify, ◌>>◌, Outcome-cases, continue, or_fault, recovered, ◌>>=◌, finally,
  on_fault,
}
use qwen_3_8_evals.VaultSol.Uploads.{write_temp, unlink_temp, chunk_count}
use qwen_3_8_evals.VaultSol.Finalize.{
  artifact_at, artifact_owned, Frozen, already, frozen, freeze_upload, unfreeze, assemble,
  install_blob, publish, commit_artifact, cleanup_chunk_files, publish_content, reject, build,
  finish_frozen, finalize,
}
use qwen_3_8_evals.VaultSol.Artifacts.{artifact_row, drop_artifact, delete_artifact}
use qwen_3_8_evals.VaultSol.Invariant.{IsValid, Holds}
use qwen_3_8_evals.VaultSol.Invariant.Rows.{
  refs-publish, Backed-publish, hashes-publish, refs-delete, distinct-delete, hashes-decrement,
  Backed-decrement,
}
use qwen_3_8_evals.VaultSol.Gc.{candidates, gc}
use qwen_3_8_evals.VaultSol.Invariant.Collect.{gc_batches-IsValid}

any-artifact_taken :
    (i u : ℕ) (arts : List Artifact)
    → any (λ b. b.id == i || b.upload_id == u) arts ≡ false
    → any (artifact_at i) arts ≡ false
unfolding any
any-artifact_taken i u [] e = refl
any-artifact_taken i u (a ∷ arts) e = ground (arith, any-artifact_taken i u arts)

-- What a step that leaves artifacts, blob rows and blob files alone does.
pub record Untouched (s t : Store) : Type 0 where
  pub artifacts : t.artifacts ≡ s.artifacts
  pub blobs : t.blobs ≡ s.blobs
  pub blob_files : t.blob_files ≡ s.blob_files

module _ (sha256 : List ℕ → ℕ) where
  pub Untouched-IsValid : (s t : Store) → Untouched s t → IsValid sha256 s → IsValid sha256 t
  Untouched-IsValid s t u v = record {
    refs = rw (u.artifacts, u.blobs) v.refs;
    backed = rw (u.artifacts, u.blobs) v.backed;
    served = rw (u.artifacts, u.blob_files) v.served;
    distinct_ids = rw u.artifacts v.distinct_ids;
    distinct_hashes = rw u.blobs v.distinct_hashes;
  }

pub freeze_upload-Untouched :
    (tenant : String) (i digest size : ℕ) (s : Store)
    → Untouched s (freeze_upload tenant i digest size s).1
unfolding freeze_upload ◌>>=◌
freeze_upload-Untouched tenant i digest size s = ground arith

unfreeze-Untouched : (i : ℕ) (s : Store) → Untouched s (unfreeze i s)
unfolding unfreeze
unfreeze-Untouched i s = record { artifacts = refl; blobs = refl; blob_files = refl }

pub write_temp-Untouched :
    (o : Option ℕ) (tag : ℕ) (content : List ℕ) (s : Store)
    → Untouched s (write_temp o tag content s)
unfolding write_temp
write_temp-Untouched o tag content s = record { artifacts = refl; blobs = refl; blob_files = refl }

unlink_temp-Untouched : (tag : ℕ) (s : Store) → Untouched s (unlink_temp tag s)
unfolding unlink_temp
unlink_temp-Untouched tag s = record { artifacts = refl; blobs = refl; blob_files = refl }

cleanup-Untouched : (i : ℕ) (s : Store) → Untouched s (cleanup_chunk_files i s)
unfolding cleanup_chunk_files
cleanup-Untouched i s = record { artifacts = refl; blobs = refl; blob_files = refl }

module _ (sha256 : List ℕ → ℕ)
    (same_length : (x y : List ℕ) → sha256 x ≡ sha256 y → length x ≡ length y) where
  Holds-new :
      (a : Artifact) (content : List ℕ) (old : Option (List ℕ))
      → sha256 content ≡ a.sha256
      → Holds sha256 a old
      → Holds sha256 a (some content)
  Holds-new a content none e h = absurd h
  Holds-new a content (some c) e h = (e, same_length content c (e ∙ sym h.0) ∙ h.1)

  Holds-put :
      (digest : ℕ) (content : List ℕ) (files : Dict (List ℕ)) (arts : List Artifact)
      → sha256 content ≡ digest
      → All (λ a. Holds sha256 a (lookup a.sha256 files)) arts
      → All (λ a. Holds sha256 a (lookup a.sha256 (put digest content files))) arts
  Holds-put digest content files [] e h = tt
  Holds-put digest content files (a ∷ arts) e h = (
    ground (
      arith,
      lookup-put digest a.sha256 content files,
      Holds-new a content (lookup a.sha256 files),
    ),
    Holds-put digest content files arts e h.1,
  )

  pub install_blob-IsValid :
      (digest tag : ℕ) (content : List ℕ) (s : Store)
      → sha256 content ≡ digest
      → IsValid sha256 s
      → IsValid sha256 (install_blob digest tag content s)
  unfolding install_blob
  install_blob-IsValid digest tag content s e v = record {
    refs = v.refs;
    backed = v.backed;
    served = Holds-put digest content s.blob_files s.artifacts e v.served;
    distinct_ids = v.distinct_ids;
    distinct_hashes = v.distinct_hashes;
  }

  publish-IsValid :
      (a : Artifact) (s : Store)
      → any (artifact_at a.id) s.artifacts ≡ false
      → Holds sha256 a (lookup a.sha256 s.blob_files)
      → IsValid sha256 s
      → IsValid sha256 (publish a s)
  unfolding publish
  publish-IsValid a s new h v = record {
    refs = refs-publish a a.size a.created_at s.artifacts s.blobs v.backed v.refs;
    backed = Backed-publish a a.size a.created_at s.blobs s.artifacts v.backed;
    served = (h, v.served);
    distinct_ids = (new, v.distinct_ids);
    distinct_hashes = hashes-publish a.sha256 a.size a.created_at s.blobs v.distinct_hashes;
  }

  commit_artifact-IsValid :
      (a : Artifact) (s : Store)
      → Holds sha256 a (lookup a.sha256 s.blob_files)
      → IsValid sha256 s
      → IsValid sha256 (commit_artifact a s).1
  unfolding commit_artifact ◌>>=◌
  commit_artifact-IsValid a s h v =
      ground (arith, publish-IsValid a s, any-artifact_taken a.id a.upload_id s.artifacts)

  -- The test of the bytes that were written: past it, they have the declared digest and size.
  reject_passes :
      (i : ℕ) (content : List ℕ) (size digest : ℕ) (s : Store)
      → (not (length content == size) || not (sha256 content == digest)) ≡ false
      → (length content ≡ size) × (sha256 content ≡ digest)
  reject_passes i content size digest s e = ground arith

  install_blob-lookup :
      (digest tag : ℕ) (content : List ℕ) (s : Store)
      → lookup digest (install_blob digest tag content s).blob_files ≡ some content
  unfolding install_blob
  install_blob-lookup digest tag content s =
      ground (arith, lookup-put digest digest content s.blob_files)

  pub install-commit-IsValid :
      (a : Artifact) (tag : ℕ) (content : List ℕ) (s : Store)
      → length content ≡ a.size
      → sha256 content ≡ a.sha256
      → IsValid sha256 s
      → IsValid sha256 (commit_artifact a (install_blob a.sha256 tag content s)).1
  install-commit-IsValid a tag content s l e v =
      commit_artifact-IsValid a (install_blob a.sha256 tag content s)
        (rw install_blob-lookup (e, l)) (install_blob-IsValid a.sha256 tag content s e v)

  publish_content-IsValid :
      (a : Artifact) (tag : ℕ) (content : List ℕ) (s : Store)
      → length content ≡ a.size
      → sha256 content ≡ a.sha256
      → IsValid sha256 s
      → IsValid sha256 (publish_content a tag content s).1
  unfolding publish_content ◌>>=◌
  publish_content-IsValid a tag content s l e v =
      let c = commit_artifact a (install_blob a.sha256 tag content s) in
      let v' = install-commit-IsValid a tag content s l e v in
      elim (Outcome-cases c.0 (λ _. modify (cleanup_chunk_files a.upload_id) >> pure a.id)) [
        | inl (u, e) ↦
            rw (e, continue)
              (Untouched-IsValid sha256 c.1 (cleanup_chunk_files a.upload_id c.1)
                (cleanup-Untouched a.upload_id c.1) v')
        | inr stop ↦ rw (stop c.1) v'
      ]

  build-IsValid :
      (tenant : String) (row : Upload) (i digest size artifact_id tag now : ℕ) (s : Store)
      → IsValid sha256 s
      → IsValid sha256 (build sha256 tenant row i digest size artifact_id tag now s).1
  unfolding build ◌>>=◌ reject
  build-IsValid tenant row i digest size artifact_id tag now s v =
      elim (Option-cases (assemble i 0 (chunk_count row) s.chunk_files)) [
        | inl missing ↦ rw (missing, or_fault) v
        | inr (content, found) ↦
            let w = write_temp none tag content s in
            let valid = Untouched-IsValid sha256 s w (write_temp-Untouched none tag content s) v in
            elim (Bool-cases (not (length content == size) || not (sha256 content == digest))) [
              | inl bad ↦
                  rw (found, or_fault, bad, reject)
                    (Untouched-IsValid sha256 w (unfreeze i w) (unfreeze-Untouched i w) valid)
              | inr good ↦
                  let (l, e) = reject_passes i content size digest w good in
                  rw (found, or_fault, good, reject)
                    (publish_content-IsValid _ tag content w l e valid)
            ]
      ]

  finish_frozen-IsValid :
      (ready : Bool) (f : Frozen) (tenant : String) (i digest size artifact_id tag now : ℕ)
      (s : Store)
      → IsValid sha256 s
      → IsValid sha256 (finish_frozen sha256 ready f tenant i digest size artifact_id tag now s).1
  unfolding finish_frozen ◌>>=◌ finally on_fault
  finish_frozen-IsValid ready (already a) tenant i digest size artifact_id tag now s v = v
  finish_frozen-IsValid false (frozen row) tenant i digest size artifact_id tag now s v = v
  finish_frozen-IsValid true (frozen row) tenant i digest size artifact_id tag now s v =
      let b = build sha256 tenant row i digest size artifact_id tag now s in
      let v' = build-IsValid tenant row i digest size artifact_id tag now s v in
      let r = recovered b.0 (unfreeze i) b.1 in
      Untouched-IsValid sha256 r (unlink_temp tag r) (unlink_temp-Untouched tag r) (
        ground
          (arith, v', Untouched-IsValid sha256 b.1 (unfreeze i b.1) (unfreeze-Untouched i b.1) v'))

  -- A finalize, however it ends, leaves a valid store valid: every refcount is exact, and each
  -- artifact has its row and a file with its digest and size. `same_length` says that no two
  -- contents of different lengths have one digest.
  pub finalize-IsValid :
      (ready : Bool) (tenant : String) (upload_id digest size artifact_id tag now : ℕ) (s : Store)
      → IsValid sha256 s
      → IsValid sha256 (finalize sha256 ready tenant upload_id digest size artifact_id tag now s).1
  unfolding finalize ◌>>=◌
  finalize-IsValid ready tenant upload_id digest size artifact_id tag now s v =
      let f = freeze_upload tenant upload_id digest size s in
      let v' =
        Untouched-IsValid sha256 s f.1 (freeze_upload-Untouched tenant upload_id digest size s) v in
      elim (Outcome-cases f.0
        (λ fr. finish_frozen sha256 ready fr tenant upload_id digest size artifact_id tag now)) [
          | inl (fr, e) ↦
              rw (e, continue)
                (finish_frozen-IsValid ready fr tenant upload_id digest size artifact_id tag now f.1
                  v')
          | inr stop ↦ rw (stop f.1) v'
        ]

module _ (sha256 : List ℕ → ℕ) where
  drop_artifact-IsValid :
      (tenant : String) (i : ℕ) (a : Artifact) (s : Store)
      → find (artifact_owned tenant i) s.artifacts ≡ some a
      → IsValid sha256 s
      → IsValid sha256 (drop_artifact tenant i a.sha256 s)
  unfolding drop_artifact
  drop_artifact-IsValid tenant i a s e v = record {
    refs = refs-delete tenant i s.artifacts a s.blobs v.distinct_ids e v.refs;
    backed =
        All-delete _ (artifact_owned tenant i) s.artifacts
          (Backed-decrement a.sha256 s.blobs s.artifacts v.backed);
    served = All-delete _ (artifact_owned tenant i) s.artifacts v.served;
    distinct_ids = distinct-delete tenant i s.artifacts v.distinct_ids;
    distinct_hashes = hashes-decrement a.sha256 s.blobs v.distinct_hashes;
  }

  -- A delete, also one that raises, leaves a valid store valid: the refcounts stay exact.
  pub delete_artifact-IsValid :
      (tenant : String) (artifact_id : ℕ) (s : Store)
      → IsValid sha256 s
      → IsValid sha256 (delete_artifact tenant artifact_id s).1
  unfolding delete_artifact artifact_row ◌>>=◌
  delete_artifact-IsValid tenant artifact_id s v =
      elim (Option-cases (find (artifact_owned tenant artifact_id) s.artifacts)) [
        | inl missing ↦ rw (missing, or_raise) v
        | inr (a, found) ↦
            rw (found, or_raise)
              (ground (arith, drop_artifact-IsValid tenant artifact_id a s found v))
      ]

  -- A garbage collection leaves a valid store valid: no artifact loses its row or its file.
  pub gc-IsValid : (tag : ℕ → ℕ) (s : Store) → IsValid sha256 s → IsValid sha256 (gc tag s).1
  unfolding gc
  gc-IsValid tag s v = gc_batches-IsValid sha256 tag (length (candidates s)) (candidates s) 0 0 s v
