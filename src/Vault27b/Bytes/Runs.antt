-- ===== src/Vault27b/Bytes/Runs.antt =====
-- Any run of vaultdrop/qwen-3-8-27b-v2, and the bytes of its artifacts.
use qwen_3_8_evals.Prelude.{
  ℕ, ◌≤◌, ◌≡◌, ◌⊎◌, inl, inr, refl, true, Option, none, some, List, [], ◌∷◌, arith, count, lookup,
  find, ◌==◌, if◌then◌else◌,
}
use qwen_3_8_evals.Vault27b.Types.{active, Artifact, Store, is_present, artifact_at, refers}
use qwen_3_8_evals.Vault27b.System.{
  System, quarantines, Available, Run, stop, later, initial, CurrentRun,
}
use qwen_3_8_evals.Vault27b.Threads.{
  Worker, idle, assembling, reading, placing, inserting, recovering, replacing, resurrecting,
  yielding, selecting, sweeping, quarantining, judging, restoring, answered, row_state,
}
use qwen_3_8_evals.Vault27b.Counts.{StoreIsValid}
use qwen_3_8_evals.Vault27b.Counts.Runs.{run-IsValid}
use qwen_3_8_evals.Vault27b.Bytes.{usable, IsValid, Tidy}
use qwen_3_8_evals.Vault27b.Bytes.Steps.{step-IsValid}

find-counted :
    (i : ℕ) (a : Artifact) (arts : List Artifact)
    → find (artifact_at i) arts ≡ some a
    → 1 ≤ count (refers a.sha256) arts
unfolding find count
find-counted i a [] e = cc
find-counted i a (x ∷ arts) e = ground (arith, find-counted i a arts)

some_of : (o : Option (List ℕ)) → is_present o ≡ true → (content : List ℕ) × (o ≡ some content)
some_of none e = cc
some_of (some content) e = (content, refl)

-- The bytes of a digest in a thread's quarantine.
unfoldable pub quarantined : ℕ → Worker → Option (List ℕ)
quarantined h (judging _ b _ content _) = if b.content_hash == h then some content else none
quarantined h (restoring _ b content _) = if b.content_hash == h then some content else none
quarantined h idle = none
quarantined h (assembling _) = none
quarantined h (reading _ _ _) = none
quarantined h (placing _ _ _) = none
quarantined h (inserting _ _) = none
quarantined h (recovering _ _ _) = none
quarantined h (replacing _ _ _) = none
quarantined h (resurrecting _ _) = none
quarantined h (yielding _ _ _) = none
quarantined h selecting = none
quarantined h (sweeping _ _) = none
quarantined h (quarantining _ _ _ _) = none
quarantined h (answered _) = none

module _ (sha256 : List ℕ → ℕ) where
  quarantines-content :
      (h : ℕ) (w : Worker) (s : Store)
      → Tidy sha256 s w
      → quarantines h w ≡ true
      → (content : List ℕ) × (quarantined h w ≡ some content) × (sha256 content ≡ h)
  unfolding quarantines quarantined
  quarantines-content h (judging _ b _ content _) s t q =
      (content, ground (arith, q), ground (arith, q, t.0))
  quarantines-content h (restoring _ b content _) s t q =
      (content, ground (arith, q), ground (arith, q, t.0))
  quarantines-content h idle s t q = cc
  quarantines-content h (assembling _) s t q = cc
  quarantines-content h (reading _ _ _) s t q = cc
  quarantines-content h (placing _ _ _) s t q = cc
  quarantines-content h (inserting _ _) s t q = cc
  quarantines-content h (recovering _ _ _) s t q = cc
  quarantines-content h (replacing _ _ _) s t q = cc
  quarantines-content h (resurrecting _ _) s t q = cc
  quarantines-content h (yielding _ _ _) s t q = cc
  quarantines-content h selecting s t q = cc
  quarantines-content h (sweeping _ _) s t q = cc
  quarantines-content h (quarantining _ _ _ _) s t q = cc
  quarantines-content h (answered _) s t q = cc

  -- The bytes of a digest, in its file or in the quarantine of a collection that will judge them.
  abbrev pub Kept : ℕ → System → Type 0
  Kept h s =
      ((content : List ℕ) × (lookup h s.store.blob_files ≡ some content) × (sha256 content ≡ h))
      ⊎ ((j : ℕ) × (content : List ℕ) × (quarantined h (s.worker j) ≡ some content)
          × (sha256 content ≡ h))

  pub run-Valid : (t : System) (r : Run sha256 initial t) → CurrentRun r → IsValid sha256 t
  unfolding find lookup
  run-Valid t stop c = record {
    counts = run-IsValid sha256 initial stop;
    addressed = λ h content e. cc;
    available = λ h e. cc;
    tidy = λ i. tt;
  }
  run-Valid t (later {t = u} r step) c = step-IsValid sha256 u t step c.1 (run-Valid u r c.0)

  Available-Kept : (h : ℕ) (s : System) → IsValid sha256 s → Available h s → Kept h s
  Available-Kept h s v (inl p) =
      let (content, e) = some_of (lookup h s.store.blob_files) p in
      inl (content, e, v.addressed h content e)
  Available-Kept h s v (inr (j, q)) =
      let (content, e, same) = quarantines-content h (s.worker j) s.store (v.tidy j) q in
      inr (j, content, e, same)

  counted-usable :
      (h : ℕ) (s : System)
      → StoreIsValid s.store
      → 1 ≤ count (refers h) s.store.artifacts
      → (usable h s.store ≡ true) × (row_state h s.store ≡ some active)
  unfolding row_state
  counted-usable h s v n = ground (arith, n, v.counted h)

  -- In any interleaving of uploads, finalizations, deletions, garbage collections and restarts from an
  -- empty store, if each collection that is about to judge quarantined bytes reads the row as it is and
  -- does not find it marked again, no finalization commits over a tombstone when its bytes are gone, and
  -- no crash meets quarantined bytes of a row that is not a tombstone: the row of each artifact's digest
  -- is active, and its bytes are in its file, with that digest, or in the quarantine of a thread.
  pub run-keeps :
      (t : System) (r : Run sha256 initial t)
      → CurrentRun r
      → (i : ℕ) (a : Artifact) → find (artifact_at i) t.store.artifacts ≡ some a
      → (row_state a.sha256 t.store ≡ some active) × Kept a.sha256 t
  run-keeps t r c i a e =
      let v = run-Valid t r c in
      let u = counted-usable a.sha256 t v.counts (find-counted i a t.store.artifacts e) in
      (u.1, Available-Kept a.sha256 t v (v.available a.sha256 u.0))
