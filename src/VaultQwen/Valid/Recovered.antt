-- ===== src/VaultQwen/Valid/Recovered.antt =====
-- What `recover` of vaultdrop/qwen-v3 leaves.
use qwen_3_8_evals.Prelude.{
  ℕ, ◌≡◌, refl, ◌∙◌, Bool, true, false, not, ◌||◌, List, [], ◌∷◌, All, All-map, arith, map, select,
  update, delete, any, count, lookup, ◌==◌, if◌then◌else◌, none, ◌&&◌,
}
use mathlib.Core.Path.{subst}
use qwen_3_8_evals.Effect.{Outcome, ok, ◌>>=◌}
use qwen_3_8_evals.VaultQwen.Types.{
  opened, is_finalizing, Upload, active, is_active, is_collecting, Artifact, Blob, Raised, Store,
}
use qwen_3_8_evals.VaultQwen.Blobs.{blob_at, refers, is_present, is_referenced}
use qwen_3_8_evals.VaultQwen.Recover.{
  reopen, revive, recover_row, recover_rows, sweep_orphans, recover,
}
use qwen_3_8_evals.VaultQwen.Valid.{StoreIsValid}
use qwen_3_8_evals.VaultQwen.Valid.Restart.{revive-IsValid, forget-IsValid, reopen-IsValid}

-- A row that is being collected is among those to come.
abbrev pub is_left : List ℕ → Blob → Bool
is_left todo b = not (is_collecting b.state) || any (λ d. d == b.hash) todo

-- No upload is being finalized, and no row is being collected.
abbrev pub Settled : Store → Type 0
Settled s =
    All (λ u. is_finalizing u.state ≡ false) s.uploads × All (λ b. is_active b.state ≡ true) s.blobs

left-revive :
    (d : ℕ) (todo : List ℕ) (bs : List Blob)
    → All (λ b. is_left (d ∷ todo) b ≡ true) bs
    → All
        (λ b. is_left todo b ≡ true)
        (update (blob_at d) (λ b. record b { state = active; gc_pass_id = none }) bs)
unfolding update any
left-revive d todo [] h = tt
left-revive d todo (b ∷ bs) h = ground (arith, left-revive d todo bs h.1)

left-forget :
    (d : ℕ) (todo : List ℕ) (bs : List Blob)
    → All (λ b. is_left (d ∷ todo) b ≡ true) bs
    → All (λ b. is_left todo b ≡ true) (delete (blob_at d) bs)
unfolding delete any
left-forget d todo [] h = tt
left-forget d todo (b ∷ bs) h = ground (arith, left-forget d todo bs h.1)

left-more : (d : ℕ) (todo : List ℕ) (b : Blob) → is_left todo b ≡ true → is_left (d ∷ todo) b ≡ true
unfolding any
left-more d todo b h = ground arith

abbrev collecting_of : List Blob → List ℕ
collecting_of bs = map (λ b. b.hash) (select (λ b. is_collecting b.state) bs)

left-cons :
    (c : Bool) (b : Blob) (rest : List ℕ) (bs : List Blob)
    → is_collecting b.state ≡ c
    → All (λ x. is_left rest x ≡ true) bs
    → All (λ x. is_left (if c then b.hash ∷ rest else rest) x ≡ true) (b ∷ bs)
unfolding any
left-cons true b rest bs e h = (ground arith, All-map bs (left-more b.hash rest) h)
left-cons false b rest bs e h = (ground arith, h)

collecting-cons :
    (b : Blob) (bs : List Blob)
    → (if is_collecting b.state then b.hash ∷ collecting_of bs else collecting_of bs)
      ≡ collecting_of (b ∷ bs)
unfolding select
collecting-cons b bs = ground arith

left-start : (bs : List Blob) → All (λ x. is_left (collecting_of bs) x ≡ true) bs
left-start [] = tt
left-start (b ∷ bs) =
    subst (λ todo. All (λ x. is_left todo x ≡ true) (b ∷ bs)) (collecting-cons b bs)
      (left-cons _ b (collecting_of bs) bs refl (left-start bs))

left-none :
    (bs : List Blob) → All (λ b. is_left [] b ≡ true) bs → All (λ b. is_active b.state ≡ true) bs
unfolding any
left-none [] h = tt
left-none (b ∷ bs) h = (ground arith, left-none bs h.1)

any-refers :
    (d : ℕ) (arts : List Artifact) → count (refers d) arts ≡ 0 → any (refers d) arts ≡ false
unfolding count any
any-refers d [] e = refl
any-refers d (a ∷ arts) e = ground (arith, any-refers d arts)

referenced-none :
    (d : ℕ) (arts : List Artifact) (bs : List Blob)
    → any (refers d) arts ≡ false
    → any (λ b. (b.hash == d) && any (refers b.hash) arts) bs ≡ false
unfolding any
referenced-none d arts [] e = refl
referenced-none d arts (b ∷ bs) e = ground (arith, referenced-none d arts bs e)

opened-All :
    (us : List Upload)
    → All
        (λ u. is_finalizing u.state ≡ false)
        (update (λ u. is_finalizing u.state) (λ u. record u { state = opened }) us)
unfolding update
opened-All [] = tt
opened-All (u ∷ us) = (ground arith, opened-All us)

module _ (sha256 : List ℕ → ℕ) where
  -- The row of a file that is gone has no artifact, so that the foreign key lets it go.
  unreferenced :
      (d : ℕ) (s : Store)
      → StoreIsValid sha256 s
      → is_present (lookup d s.blob_files) ≡ false
      → is_referenced (blob_at d) s ≡ false
  unfolding is_referenced
  unreferenced d s v gone =
      referenced-none d s.artifacts s.blobs (any-refers d s.artifacts (ground (arith, v.sound d)))

  -- What one round of the loop leaves.
  pub record RowDone (todo : List ℕ) (s : Store) (r : Outcome Raised (Unit {0}) × Store)
      : Type 0 where
    pub returns : r.0 ≡ ok tt
    pub left : All (λ b. is_left todo b ≡ true) r.1.blobs
    pub uploads : r.1.uploads ≡ s.uploads
    pub store_valid : StoreIsValid sha256 r.1

  row-RowDone :
      (there : Bool) (d : ℕ) (todo : List ℕ) (s : Store)
      → is_present (lookup d s.blob_files) ≡ there
      → StoreIsValid sha256 s
      → All (λ b. is_left (d ∷ todo) b ≡ true) s.blobs
      → RowDone todo s (recover_row there d s)
  unfolding recover_row revive ◌>>=◌
  row-RowDone true d todo s e v h = record {
    returns = refl;
    left = left-revive d todo s.blobs h;
    uploads = refl;
    store_valid = revive-IsValid sha256 d s e v;
  }
  row-RowDone false d todo s e v h = rw (unreferenced d s v e) (record {
    returns = refl;
    left = left-forget d todo s.blobs h;
    uploads = refl;
    store_valid = forget-IsValid sha256 d s e v;
  })

  rows-RowDone :
      (todo : List ℕ) (s : Store)
      → StoreIsValid sha256 s
      → All (λ b. is_left todo b ≡ true) s.blobs
      → RowDone [] s (recover_rows todo s)
  unfolding recover_rows ◌>>=◌
  rows-RowDone [] s v h = record { returns = refl; left = h; uploads = refl; store_valid = v }
  rows-RowDone (d ∷ todo) s v h =
      let one = row-RowDone _ d todo s refl v h in
      let rest =
        rows-RowDone todo (recover_row (is_present (lookup d s.blob_files)) d s).1 one.store_valid
          one.left in
      rw one.returns (record {
        returns = rest.returns;
        left = rest.left;
        uploads = rest.uploads ∙ one.uploads;
        store_valid = rest.store_valid;
      })

  pub recover-Settled :
      (s : Store) → StoreIsValid sha256 s → ((recover s).0 ≡ ok tt) × Settled (recover s).1
  unfolding recover reopen sweep_orphans ◌>>=◌
  recover-Settled s v =
      let all =
        rows-RowDone (collecting_of s.blobs) (reopen s) (reopen-IsValid sha256 s v)
          (left-start s.blobs) in
      rw all.returns (refl, (rw all.uploads (opened-All s.uploads), left-none _ all.left))
