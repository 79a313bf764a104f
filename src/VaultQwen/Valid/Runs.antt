-- ===== src/VaultQwen/Valid/Runs.antt =====
-- Any run of the threads of vaultdrop/qwen-v3.
use qwen_3_8_evals.Prelude.{
  ℕ, ◌≤◌, ◌≡◌, refl, true, Option, none, some, List, [], ◌∷◌, arith, lookup, count, find, any,
}
use qwen_3_8_evals.Effect.{ok}
use qwen_3_8_evals.VaultQwen.Types.{Artifact, Blob, Store}
use qwen_3_8_evals.VaultQwen.Blobs.{blob_at, artifact_at, refers, is_present}
use qwen_3_8_evals.VaultQwen.Workers.{sweeping}
use qwen_3_8_evals.VaultQwen.System.{System, owns, Run, stop, later, CurrentRun, initial}
use qwen_3_8_evals.VaultQwen.Valid.{Backing, SoundAt, IsValid}
use qwen_3_8_evals.VaultQwen.Recover.{recover}
use qwen_3_8_evals.VaultQwen.Valid.Recovered.{Settled, recover-Settled}
use qwen_3_8_evals.VaultQwen.Valid.Steps.{idle-owns, step-IsValid}

find-counted :
    (i : ℕ) (a : Artifact) (arts : List Artifact)
    → find (artifact_at i) arts ≡ some a
    → 1 ≤ count (refers a.blob_hash) arts
unfolding find count
find-counted i a [] e = cc
find-counted i a (x ∷ arts) e = ground (arith, find-counted i a arts)

some_of : (o : Option (List ℕ)) → is_present o ≡ true → (content : List ℕ) × (o ≡ some content)
some_of none e = cc
some_of (some content) e = (content, refl)

-- The file of a digest that has artifacts.
file_there :
    (h : ℕ) (s : Store)
    → 1 ≤ count (refers h) s.artifacts
    → SoundAt h s
    → (content : List ℕ) × (lookup h s.blob_files ≡ some content)
file_there h s n sound = some_of (lookup h s.blob_files) (ground arith)

module _ (sha256 : List ℕ → ℕ) where
  initial-IsValid : IsValid sha256 initial
  unfolding find count lookup
  initial-IsValid = record {
    store_valid = record {
      sound = λ h. refl;
      addressed = λ h content e. cc;
      ids = tt;
      hashes = tt;
      begun = tt;
    };
    held = λ i h o. ground (arith, idle-owns h);
    single = λ i j h o p. ground (arith, idle-owns h);
    tidy = λ i. tt;
  }

  run-IsValid :
      (s t : System) (r : Run sha256 s t) → CurrentRun r → IsValid sha256 s → IsValid sha256 t
  run-IsValid s t stop c v = v
  run-IsValid s t (later {t = u} r step) c v =
      step-IsValid sha256 u t step c.1 (run-IsValid s u r c.0 v)

  module _ (t : System) (r : Run sha256 initial t) (c : CurrentRun r) where
    reached : IsValid sha256 t
    reached = run-IsValid initial t r c initial-IsValid

    -- In any interleaving of uploads, finalizations, deletions, garbage collections and restarts from
    -- an empty store, if each file that a finalization replaced as the residue of a crash was nobody's,
    -- and each artifact was still there when it was deleted: the file of each artifact is there,
    -- with its digest.
    pub run-serves :
        (i : ℕ) (a : Artifact)
        → find (artifact_at i) t.store.artifacts ≡ some a
        → (content : List ℕ) × (lookup a.blob_hash t.store.blob_files ≡ some content)
          × (sha256 content ≡ a.blob_hash)
    run-serves i a e =
        let (content, there) =
          file_there a.blob_hash t.store (find-counted i a t.store.artifacts e)
            (reached.store_valid.sound a.blob_hash) in
        (content, there, reached.store_valid.addressed a.blob_hash content there)

    -- In any interleaving of uploads, finalizations, deletions, garbage collections and restarts from
    -- an empty store, if each file that a finalization replaced as the residue of a crash was nobody's,
    -- and each artifact was still there when it was deleted: the refcount of each row is the number of artifacts with its digest; and the row is
    -- active and its file is there, or it is being collected and no artifact refers to it.
    pub run-refcounts :
        (h : ℕ) (b : Blob)
        → find (blob_at h) t.store.blobs ≡ some b
        → (b.refcount ≡ count (refers h) t.store.artifacts)
          × Backing b.state
              (count (refers h) t.store.artifacts)
              (is_present (lookup h t.store.blob_files))
    run-refcounts h b e = ground (arith, reached.store_valid.sound h)

    -- In any interleaving of uploads, finalizations, deletions, garbage collections and restarts from
    -- an empty store, if each file that a finalization replaced as the residue of a crash was nobody's,
    -- and each artifact was still there when it was deleted: what a garbage collection is about to unlink has a file, no artifact refers to it,
    -- and a thread that has linked that file, or is about to unlink it, is the collection itself.
    pub run-sweeps :
        (i j pass now scanned freed h : ℕ) (left : List Blob)
        → t.worker i ≡ sweeping pass now scanned freed left
        → any (blob_at h) left ≡ true
        → owns h (t.worker j) ≡ true
        → (is_present (lookup h t.store.blob_files) ≡ true)
          × (count (refers h) t.store.artifacts ≡ 0)
          × (j ≡ i)
    unfolding owns
    run-sweeps i j pass now scanned freed h left e o p =
        let mine : owns h (t.worker i) ≡ true = rw e o in
        let held = reached.held i h mine in
        (
          held.0,
          ground (arith, held.0, held.1, reached.store_valid.sound h),
          reached.single j i h p mine,
        )

    -- In any interleaving of uploads, finalizations, deletions, garbage collections and restarts from
    -- an empty store, if each file that a finalization replaced as the residue of a crash was nobody's,
    -- and each artifact was still there when it was deleted: a restart at any point succeeds, as no
    -- artifact needs a row that `recover` deletes, and it leaves no upload in the state 'finalizing' and
    -- no row in the state 'collecting'.
    pub run-recovers : ((recover t.store).0 ≡ ok tt) × Settled (recover t.store).1
    run-recovers = recover-Settled sha256 t.store reached.store_valid
