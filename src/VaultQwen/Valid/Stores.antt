-- ===== src/VaultQwen/Valid/Stores.antt =====
-- The store of vaultdrop/qwen-v3 under each statement and each move of a file.
use qwen_3_8_evals.Prelude.{
  ℕ, suc, ◌≡◌, refl, Bool, true, false, some, List, [], ◌∷◌, All, arith, find, update, any, count,
  lookup, lookup-put, lookup-without, find-Keyed, All-delete, find-update, find-delete, find-none,
  count-delete, Distinct-update, Distinct-delete,
}
use qwen_3_8_evals.VaultQwen.Types.{Artifact, Blob, Pass, Store}
use qwen_3_8_evals.VaultQwen.Blobs.{
  Job, is_present, blob_at, artifact_at, refers, link_blob, unlink_blob, insert_blob,
  increment_blob, active_at, one_more, insert_artifact, finish_upload, mark, marked,
  is_unreferenced, collect, is_collected, decrement_refcount, counted_at, one_less, last_id,
}
use qwen_3_8_evals.VaultQwen.Workers.{remove_artifact}
use qwen_3_8_evals.VaultQwen.System.{in_use}
use qwen_3_8_evals.VaultQwen.Valid.{Begun, StoreIsValid}

-- A row of which an UPDATE changes neither the key nor the pass.
pub Begun-update :
    (last : ℕ) (p : Blob → Bool) (f : Blob → Blob) (bs : List Blob)
    → ((b : Blob) → Begun last b.gc_pass_id → Begun last (f b).gc_pass_id)
    → All (λ b. Begun last b.gc_pass_id) bs
    → All (λ b. Begun last b.gc_pass_id) (update p f bs)
unfolding update
Begun-update last p f [] same h = tt
Begun-update last p f (b ∷ bs) same h =
    ground (arith, same b h.0, Begun-update last p f bs same h.1)

Begun-mark :
    (last : ℕ) (bs : List Blob)
    → All (λ b. Begun last b.gc_pass_id) bs
    → All (λ b. Begun (suc last) b.gc_pass_id) (update is_unreferenced (marked (suc last)) bs)
unfolding update
Begun-mark last [] h = tt
Begun-mark last (b ∷ bs) h = ground (arith, Begun-mark last bs h.1)

-- An UPDATE of a pass leaves its id.
last-update :
    (p : Pass → Bool) (f : Pass → Pass) (passes : List Pass)
    → ((x : Pass) → (f x).id ≡ x.id)
    → last_id (update p f passes) ≡ last_id passes
unfolding update
last-update p f [] same = refl
last-update p f (x ∷ passes) same = ground (arith, same x)

module _ (sha256 : List ℕ → ℕ) where
  -- Bytes with the right digest may be put where no file was.
  pub link-IsValid :
      (j : Job) (s : Store)
      → sha256 j.content ≡ j.digest
      → StoreIsValid sha256 s
      → StoreIsValid sha256 (link_blob j s)
  unfolding link_blob
  link-IsValid j s e v = record {
    sound = λ h. ground (arith, v.sound h, lookup-put j.digest h j.content s.blob_files);
    addressed = λ h content p.
        ground (arith, v.addressed h content, lookup-put j.digest h j.content s.blob_files);
    ids = v.ids;
    hashes = v.hashes;
    begun = v.begun;
  }

  -- A file may go that no active row names.
  pub unlink-IsValid :
      (digest : ℕ) (s : Store)
      → in_use digest s ≡ false
      → StoreIsValid sha256 s
      → StoreIsValid sha256 (unlink_blob digest s)
  unfolding unlink_blob
  unlink-IsValid digest s e v = record {
    sound = λ h. ground (arith, v.sound h, lookup-without digest h s.blob_files);
    addressed =
        λ h content p. ground (arith, v.addressed h content, lookup-without digest h s.blob_files);
    ids = v.ids;
    hashes = v.hashes;
    begun = v.begun;
  }

  -- The statements of the commit in mode 'new', for a digest without a row.
  pub publish_new-IsValid :
      (j : Job) (s : Store)
      → any (blob_at j.digest) s.blobs ≡ false
      → any (artifact_at j.artifact_id) s.artifacts ≡ false
      → is_present (lookup j.digest s.blob_files) ≡ true
      → StoreIsValid sha256 s
      → StoreIsValid sha256 (finish_upload j (insert_artifact j (insert_blob j s)))
  unfolding finish_upload insert_artifact insert_blob find count
  publish_new-IsValid j s free fresh there v = record {
    sound = λ h. ground (arith, v.sound h, find-none (λ b. b.hash) j.digest s.blobs free);
    addressed = v.addressed;
    ids = (fresh, v.ids);
    hashes = (free, v.hashes);
    begun = (tt, v.begun);
  }

  -- In mode 'increment', for a digest whose row is active.
  pub publish_increment-IsValid :
      (j : Job) (s : Store)
      → in_use j.digest s ≡ true
      → any (artifact_at j.artifact_id) s.artifacts ≡ false
      → StoreIsValid sha256 s
      → StoreIsValid sha256 (finish_upload j (insert_artifact j (increment_blob j.digest s)))
  unfolding finish_upload insert_artifact increment_blob count
  publish_increment-IsValid j s used fresh v = record {
    sound = λ h. ground (
      arith,
      v.sound h,
      find-update (λ b. b.hash) h (active_at j.digest) one_more s.blobs (λ b. refl),
      find-Keyed (λ b. b.hash) h s.blobs,
    );
    addressed = v.addressed;
    ids = (fresh, v.ids);
    hashes =
        Distinct-update (λ b. b.hash) (active_at j.digest) one_more s.blobs (λ b. refl) v.hashes;
    begun = Begun-update _ (active_at j.digest) one_more s.blobs (λ b h. h) v.begun;
  }

  pub remove_artifact-IsValid :
      (a : Artifact) (s : Store)
      → find (artifact_at a.id) s.artifacts ≡ some a
      → StoreIsValid sha256 s
      → StoreIsValid sha256 (remove_artifact a s)
  unfolding remove_artifact decrement_refcount
  remove_artifact-IsValid a s e v = record {
    sound = λ h. ground (
      arith,
      v.sound h,
      find-update (λ b. b.hash) h (counted_at a.blob_hash) one_less s.blobs (λ b. refl),
      find-Keyed (λ b. b.hash) h s.blobs,
      count-delete (λ x. x.id) (refers h) a s.artifacts v.ids e,
    );
    addressed = v.addressed;
    ids = Distinct-delete (λ x. x.id) (artifact_at a.id) s.artifacts v.ids;
    hashes =
        Distinct-update (λ b. b.hash) (counted_at a.blob_hash) one_less s.blobs (λ b. refl)
          v.hashes;
    begun = Begun-update _ (counted_at a.blob_hash) one_less s.blobs (λ b h. h) v.begun;
  }

  pub mark-IsValid :
      (now : ℕ) (s : Store) → StoreIsValid sha256 s → StoreIsValid sha256 (mark now s)
  unfolding mark
  mark-IsValid now s v =
      let pass = suc (last_id s.passes) in
      record {
        sound = λ h. ground (
          arith,
          v.sound h,
          find-update (λ b. b.hash) h is_unreferenced (marked pass) s.blobs (λ b. refl),
        );
        addressed = v.addressed;
        ids = v.ids;
        hashes =
            Distinct-update (λ b. b.hash) is_unreferenced (marked pass) s.blobs (λ b. refl)
              v.hashes;
        begun = Begun-mark (last_id s.passes) s.blobs v.begun;
      }

  pub collect-IsValid :
      (pass scanned freed now : ℕ) (s : Store)
      → StoreIsValid sha256 s
      → StoreIsValid sha256 (collect pass scanned freed now s)
  unfolding collect
  collect-IsValid pass scanned freed now s v = record {
    sound = λ h.
        ground (arith, v.sound h, find-delete (λ b. b.hash) h (is_collected pass) s.blobs v.hashes);
    addressed = v.addressed;
    ids = v.ids;
    hashes = Distinct-delete (λ b. b.hash) (is_collected pass) s.blobs v.hashes;
    begun = rw last-update (All-delete _ (is_collected pass) s.blobs v.begun);
  }
