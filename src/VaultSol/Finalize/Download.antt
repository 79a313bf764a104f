-- ===== src/VaultSol/Finalize/Download.antt =====
-- A download after a finalize in vaultdrop.py, and the state in which a finalize leaves its upload.
use text.Mathlib.TextPositions.{eq_refl}
use qwen_3_8_evals.Prelude.{
  ℕ, String, ◌≡◌, refl, Bool, true, false, Option, none, some, List, [], ◌∷◌, All, arith, length,
  find, update, lookup,
}
use qwen_3_8_evals.VaultSol.Types.{uploading, finalized, Upload, Artifact, Store}
use qwen_3_8_evals.VaultSol.Action.{Result}
use qwen_3_8_evals.Effect.{continue, recovered, ok, err, fault, ◌>>=◌, finally, on_fault}
use qwen_3_8_evals.VaultSol.Uploads.{owned, upload_at, write_temp, unlink_temp, chunk_count}
use qwen_3_8_evals.VaultSol.Finalize.{
  Frozen, already, frozen, freeze_upload, finalizing_at, unfreeze, assemble, install_blob, publish,
  commit_artifact, cleanup_chunk_files, publish_content, reject, build, finish_frozen, finalize,
}
use qwen_3_8_evals.VaultSol.Finalize.Outcome.{IsFile, finalize_publishes}
use qwen_3_8_evals.VaultSol.Artifacts.{open_verified_artifact}

module _ (sha256 : List ℕ → ℕ) where
  -- A download that gives the assembled content under the upload's name.
  abbrev pub Delivers : Upload → ℕ → ℕ → Option (List ℕ) → Result (Artifact × List ℕ) → Type 0
  Delivers u digest size assembled (ok (row, content)) =
      (assembled ≡ some content)
      × (row.name ≡ u.name)
      × (row.sha256 ≡ digest)
      × (row.size ≡ size)
      × (sha256 content ≡ digest)
      × (length content ≡ size)
  Delivers u digest size assembled (err _) = ⊥
  Delivers u digest size assembled (fault _) = ⊥

  open-Delivers :
      (a : Artifact) (u : Upload) (assembled : Option (List ℕ)) (t : Store) (rest : List Artifact)
      → t.artifacts ≡ a ∷ rest
      → a.name ≡ u.name
      → IsFile sha256 a.sha256 a.size assembled (lookup a.sha256 t.blob_files)
      → Delivers u a.sha256 a.size assembled (open_verified_artifact sha256 a.tenant_id a.id t).0
  unfolding open_verified_artifact find ◌>>=◌
  open-Delivers a u none t rest e n h = absurd h
  open-Delivers a u (some c) t rest e n h = ground (arith, h.0, h.1, h.2, eq_refl a.tenant_id)

  -- After a finalize that returns normally, of an upload that took chunks, the tenant downloads
  -- from the store that it left the bytes of the chunk files, in order, with the declared digest
  -- and size and the upload's name.
  pub finalize_then_open :
      (ready : Bool) (tenant : String) (upload_id digest size artifact_id tag now a : ℕ) (s : Store)
      (u : Upload)
      → find (owned tenant upload_id) s.uploads ≡ some u
      → u.state ≡ uploading
      → (finalize sha256 ready tenant upload_id digest size artifact_id tag now s).0 ≡ ok a
      → let t = (finalize sha256 ready tenant upload_id digest size artifact_id tag now s).1 in
        Delivers u digest size
          (assemble upload_id 0 (chunk_count u) s.chunk_files)
          (open_verified_artifact sha256 tenant a t).0
  finalize_then_open ready tenant upload_id digest size artifact_id tag now a s u found up h =
      let t = (finalize sha256 ready tenant upload_id digest size artifact_id tag now s).1 in
      let (same_id, arts, file, total) =
        finalize_publishes sha256 ready tenant upload_id digest size artifact_id tag now a s u found
          up h in
      let row : Artifact = record {
        id = artifact_id;
        tenant_id = tenant;
        upload_id = upload_id;
        name = u.name;
        size = size;
        sha256 = digest;
        created_at = now;
      } in
      rw same_id (
        open-Delivers row u (assemble upload_id 0 (chunk_count u) s.chunk_files) t s.artifacts arts
          refl file)

-- No row of that upload is left in the state 'finalizing'.
abbrev pub Settled : ℕ → List Upload → Type 0
Settled upload_id rows = All (λ u. finalizing_at upload_id u ≡ false) rows

Settled-unfreeze :
    (i : ℕ) (rows : List Upload)
    → Settled i (
        update
          (finalizing_at i)
          (λ u. record u { state = uploading; expected_sha256 = none; expected_size = none })
          rows)
unfolding update
Settled-unfreeze i [] = tt
Settled-unfreeze i (u ∷ rows) = (ground arith, Settled-unfreeze i rows)

Settled-publish :
    (i a : ℕ) (rows : List Upload)
    → Settled i
        (update (upload_at i) (λ u. record u { state = finalized; artifact_id = some a }) rows)
unfolding update
Settled-publish i a [] = tt
Settled-publish i a (u ∷ rows) = (ground arith, Settled-publish i a rows)

publish_content-uploads :
    (a : Artifact) (tag : ℕ) (content : List ℕ) (s : Store) (x : ℕ)
    → (publish_content a tag content s).0 ≡ ok x
    → Settled a.upload_id (publish_content a tag content s).1.uploads
unfolding publish_content commit_artifact publish install_blob cleanup_chunk_files ◌>>=◌
publish_content-uploads a tag content s x h =
    ground (arith, Settled-publish a.upload_id a.id s.uploads)

abbrev is_frozen : Result Frozen → Bool
is_frozen (ok (frozen _)) = true
is_frozen (ok (already _)) = false
is_frozen (err _) = false
is_frozen (fault _) = false

freeze_upload-uploads :
    (tenant : String) (i digest size : ℕ) (s : Store)
    → is_frozen (freeze_upload tenant i digest size s).0 ≡ false
    → (freeze_upload tenant i digest size s).1.uploads ≡ s.uploads
unfolding freeze_upload ◌>>=◌
freeze_upload-uploads tenant i digest size s h = ground arith

module _ (sha256 : List ℕ → ℕ) where
  -- What `build` leaves, once the handler of faults has run.
  build-Settled :
      (tenant : String) (row : Upload) (i digest size artifact_id tag now : ℕ) (s : Store)
      → let (r, t) = build sha256 tenant row i digest size artifact_id tag now s in
        Settled i (recovered r (unfreeze i) t).uploads
  unfolding build publish_content commit_artifact publish reject unfreeze install_blob write_temp
      cleanup_chunk_files ◌>>=◌
  build-Settled tenant row i digest size artifact_id tag now s =
      ground (arith, Settled-publish i artifact_id s.uploads, Settled-unfreeze i s.uploads)

  finish_frozen-Settled :
      (row : Upload) (tenant : String) (i digest size artifact_id tag now : ℕ) (s : Store)
      → Settled i
          (finish_frozen sha256 true
            (frozen row)
            tenant
            i
            digest
            size
            artifact_id
            tag
            now
            s).1.uploads
  unfolding finish_frozen finally on_fault unlink_temp
  finish_frozen-Settled row tenant i digest size artifact_id tag now s =
      build-Settled tenant row i digest size artifact_id tag now s

  -- An upload that no other request is finalizing is not left in the state 'finalizing' by a
  -- finalize for which the blob's directory could be made and synced, however that ends: it can be
  -- retried, or it is finalized.
  pub finalize-Settled :
      (tenant : String) (upload_id digest size artifact_id tag now : ℕ) (s : Store)
      → Settled upload_id s.uploads
      → Settled upload_id
          (finalize sha256 true tenant upload_id digest size artifact_id tag now s).1.uploads
  unfolding finalize ◌>>=◌
  finalize-Settled tenant upload_id digest size artifact_id tag now s h =
      let f = freeze_upload tenant upload_id digest size s in
      let kept = freeze_upload-uploads tenant upload_id digest size s in settle f.0 f.1 refl kept
    where
      settle :
          (r : Result Frozen) (t : Store)
          → (freeze_upload tenant upload_id digest size s).0 ≡ r
          → (is_frozen r ≡ false → t.uploads ≡ s.uploads)
          → Settled upload_id
              (continue r
                (λ fr.
                  finish_frozen sha256 true fr tenant upload_id digest size artifact_id tag now)
                t).1.uploads
      settle (ok (frozen row)) t e kept =
          finish_frozen-Settled row tenant upload_id digest size artifact_id tag now t
      settle (ok (already a)) t e kept = unfold finish_frozen ◌>>=◌ in rw (kept refl) h
      settle (err x) t e kept = rw (kept refl) h
      settle (fault x) t e kept = rw (kept refl) h
