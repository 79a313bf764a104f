-- ===== src/VaultQwen/Valid/Restart.antt =====
-- The store of vaultdrop/qwen-v3 under `recover`.
use qwen_3_8_evals.Prelude.{
  ℕ, ◌≡◌, refl, Bool, true, false, none, List, [], ◌∷◌, arith, if◌then◌else◌, lookup, Dict, any,
  map, select, find-update, find-delete, find-Keyed, any-find, Distinct-update, Distinct-delete,
  All-delete,
}
use qwen_3_8_evals.Effect.{◌>>=◌, modify}
use qwen_3_8_evals.Effect.Keeps.{keeps_continue}
use qwen_3_8_evals.VaultQwen.Types.{active, is_collecting, Blob, Store}
use qwen_3_8_evals.VaultQwen.Blobs.{blob_at, is_present, is_referenced, last_id}
use qwen_3_8_evals.VaultQwen.Recover.{
  reopen, revive, forget, recover_row, recover_rows, known_files, sweep_orphans, recover,
}
use qwen_3_8_evals.VaultQwen.Valid.{StoreIsValid}
use qwen_3_8_evals.VaultQwen.Valid.Stores.{Begun-update}

lookup-known :
    (h : ℕ) (bs : List Blob) (files : Dict (List ℕ))
    → lookup h (known_files bs files) ≡ (if any (blob_at h) bs then lookup h files else none)
unfolding lookup known_files
lookup-known h bs [] = ground arith
lookup-known h bs ((d, c) ∷ files) = ground (arith, lookup-known h bs files)

module _ (sha256 : List ℕ → ℕ) where
  pub revive-IsValid :
      (digest : ℕ) (s : Store)
      → is_present (lookup digest s.blob_files) ≡ true
      → StoreIsValid sha256 s
      → StoreIsValid sha256 (revive digest s)
  unfolding revive
  revive-IsValid digest s there v =
      let f : Blob → Blob = λ b. record b { state = active; gc_pass_id = none } in
      record {
        sound = λ h. ground (
          arith,
          v.sound h,
          find-update (λ b. b.hash) h (blob_at digest) f s.blobs (λ b. refl),
          find-Keyed (λ b. b.hash) h s.blobs,
        );
        addressed = v.addressed;
        ids = v.ids;
        hashes = Distinct-update (λ b. b.hash) (blob_at digest) f s.blobs (λ b. refl) v.hashes;
        begun = Begun-update (last_id s.passes) (blob_at digest) f s.blobs (λ b h. tt) v.begun;
      }

  pub forget-IsValid :
      (digest : ℕ) (s : Store)
      → is_present (lookup digest s.blob_files) ≡ false
      → StoreIsValid sha256 s
      → StoreIsValid sha256 (forget digest s)
  unfolding forget
  forget-IsValid digest s gone v = record {
    sound = λ h. ground (
      arith,
      v.sound h,
      find-delete (λ b. b.hash) h (blob_at digest) s.blobs v.hashes,
      find-Keyed (λ b. b.hash) h s.blobs,
    );
    addressed = v.addressed;
    ids = v.ids;
    hashes = Distinct-delete (λ b. b.hash) (blob_at digest) s.blobs v.hashes;
    begun = All-delete _ (blob_at digest) s.blobs v.begun;
  }

  recover_row-IsValid :
      (there held : Bool) (digest : ℕ) (s : Store)
      → is_present (lookup digest s.blob_files) ≡ there
      → is_referenced (blob_at digest) s ≡ held
      → StoreIsValid sha256 s
      → StoreIsValid sha256 (recover_row there digest s).1
  unfolding recover_row ◌>>=◌
  recover_row-IsValid true held digest s e f v = revive-IsValid digest s e v
  recover_row-IsValid false true digest s e f v = rw f v
  recover_row-IsValid false false digest s e f v = rw f (forget-IsValid digest s e v)

  recover_rows-IsValid :
      (digests : List ℕ) (s : Store)
      → StoreIsValid sha256 s
      → StoreIsValid sha256 (recover_rows digests s).1
  unfolding recover_rows ◌>>=◌
  recover_rows-IsValid [] s v = v
  recover_rows-IsValid (digest ∷ rest) s v =
      keeps_continue (recover_row (is_present (lookup digest s.blob_files)) digest s).0
        (λ _. recover_rows rest) _ (λ _. record { after = recover_rows-IsValid rest })
        (recover_row-IsValid _ _ digest s refl refl v)

  pub reopen-IsValid : (s : Store) → StoreIsValid sha256 s → StoreIsValid sha256 (reopen s)
  unfolding reopen
  reopen-IsValid s v = record {
    sound = v.sound;
    addressed = v.addressed;
    ids = v.ids;
    hashes = v.hashes;
    begun = v.begun;
  }

  sweep_orphans-IsValid :
      (s : Store) → StoreIsValid sha256 s → StoreIsValid sha256 (sweep_orphans s)
  unfolding sweep_orphans
  sweep_orphans-IsValid s v = record {
    sound = λ h.
        ground
          (arith, v.sound h, lookup-known h s.blobs s.blob_files, any-find (λ b. b.hash) h s.blobs);
    addressed =
        λ h content e. ground (arith, v.addressed h content, lookup-known h s.blobs s.blob_files);
    ids = v.ids;
    hashes = v.hashes;
    begun = v.begun;
  }

  pub recover-IsValid : (s : Store) → StoreIsValid sha256 s → StoreIsValid sha256 (recover s).1
  unfolding recover ◌>>=◌
  recover-IsValid s v =
      let stuck : List ℕ = map (λ b. b.hash) (select (λ b. is_collecting b.state) s.blobs) in
      keeps_continue (recover_rows stuck (reopen s)).0 (λ _. modify sweep_orphans) _
        (λ _. record { after = sweep_orphans-IsValid })
        (recover_rows-IsValid stuck (reopen s) (reopen-IsValid s v))
