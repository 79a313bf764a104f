-- ===== src/VaultSol/Recover/Repairs.antt =====
-- What `recover` of vaultdrop.py repairs in any state that it finds.
use qwen_3_8_evals.Prelude.{
  ℕ, ◌<◌, ◌≡◌, refl, Bool, map, true, false, inl, inr, Option, none, some, List, [], ◌∷◌, All,
  arith, ◌==◌, if◌then◌else◌, find, update, any, count, Dict, lookup, lookup-put, Bool-cases,
}
use qwen_3_8_evals.VaultSol.Types.{
  uploading, finalized, is_finalizing, Upload, Blob, Artifact, TrashFile, Store,
}
use qwen_3_8_evals.VaultSol.Finalize.{blob_at, refers}
use qwen_3_8_evals.VaultSol.Recover.{
  has_published, reset, repair_rows, is_referenced, restore_file, restore_trash, known_files,
  recover,
}
use qwen_3_8_evals.VaultSol.Invariant.Recovery.{
  recounted, any-recounted, restore_trash-keeps, lookup-known_files,
}

-- Whether an upload's artifact is there.
abbrev pub is_published : List Artifact → Option ℕ → Bool
is_published artifacts none = false
is_published artifacts (some i) = any (λ a. a.id == i) artifacts

-- An upload as it was, but finalized if its artifact is there, and open again if it was frozen without.
abbrev pub settled : List Artifact → Upload → Upload
settled artifacts u =
    if is_published artifacts u.artifact_id
    then record u { state = finalized }
    else if is_finalizing u.state
    then record u {
      state = uploading;
      expected_sha256 = none;
      expected_size = none;
      artifact_id = none;
    }
    else u

settle_rows :
    (arts : List Artifact) (rows : List Upload)
    → update
        (λ u. is_finalizing u.state)
        reset
        (update (λ u. has_published arts u.artifact_id) (λ u. record u { state = finalized }) rows)
      ≡ map (settled arts) rows
unfolding update
settle_rows arts [] = refl
settle_rows arts (u ∷ rows) = ground (arith, settle_rows arts rows)

pub recover-uploads : (s : Store) → (recover s).uploads ≡ map (settled s.artifacts) s.uploads
unfolding recover repair_rows
recover-uploads s = settle_rows s.artifacts s.uploads

-- Every file under blobs/ has a row.
abbrev pub HasRows : List Blob → Dict (List ℕ) → Type 0
HasRows blobs files = All (λ f. any (blob_at f.0) blobs ≡ true) files

known_files-HasRows : (bs : List Blob) (files : Dict (List ℕ)) → HasRows bs (known_files bs files)
unfolding known_files
known_files-HasRows bs [] = tt
known_files-HasRows bs ((d, c) ∷ files) = ground (arith, known_files-HasRows bs files)

pub recover-HasRows : (s : Store) → HasRows (recover s).blobs (recover s).blob_files
unfolding recover repair_rows
recover-HasRows s =
    let bs = recounted s.artifacts s.blobs in
    known_files-HasRows bs (restore_trash bs s.trash s.blob_files)

-- The first file in the trash under a digest.
unfoldable pub trash_content : ℕ → List TrashFile → Option (List ℕ)
trash_content h [] = none
trash_content h (f ∷ rest) = if f.digest == h then some f.content else trash_content h rest

restore_trash-restores :
    (bs : List Blob) (trash : List TrashFile) (files : Dict (List ℕ)) (h : ℕ) (c : List ℕ)
    → is_referenced (find (blob_at h) bs) ≡ true
    → lookup h files ≡ none
    → trash_content h trash ≡ some c
    → lookup h (restore_trash bs trash files) ≡ some c
unfolding restore_trash trash_content
restore_trash-restores bs [] files h c r e t = cc
restore_trash-restores bs (f ∷ trash) files h c r e t = elim (Bool-cases (f.digest == h)) [
  | inl here ↦
      let next =
        if is_referenced (find (blob_at f.digest) bs)
        then restore_file (lookup f.digest files) f files
        else files in
      restore_trash-keeps bs trash next h c (ground (arith, lookup-put f.digest h f.content files))
  | inr elsewhere ↦
      restore_trash-restores bs trash _ h c r
        (ground (arith, lookup-put f.digest h f.content files)) (ground arith)
]

referenced-recounted :
    (h : ℕ) (arts : List Artifact) (bs : List Blob)
    → any (blob_at h) bs ≡ true
    → 0 < count (refers h) arts
    → is_referenced (find (blob_at h) (recounted arts bs)) ≡ true
unfolding any find update
referenced-recounted h arts [] a r = cc
referenced-recounted h arts (b ∷ bs) a r = ground (arith, referenced-recounted h arts bs)

-- If an artifact refers to a digest that has a row and no file, the content that the trash holds for it is
-- its file again after recovery.
pub recover_restores :
    (s : Store) (digest : ℕ) (content : List ℕ)
    → any (blob_at digest) s.blobs ≡ true
    → 0 < count (refers digest) s.artifacts
    → lookup digest s.blob_files ≡ none
    → trash_content digest s.trash ≡ some content
    → lookup digest (recover s).blob_files ≡ some content
unfolding recover repair_rows
recover_restores s digest content known referenced missing kept =
    rw
      (
        lookup-known_files (recounted s.artifacts s.blobs) _ digest,
        any-recounted digest s.artifacts s.blobs,
        known,
      )
      (restore_trash-restores (recounted s.artifacts s.blobs) s.trash s.blob_files digest content
        (referenced-recounted digest s.artifacts s.blobs known referenced) missing kept)

-- Whatever the state that it starts from, recovery gives each upload whose artifact is there the state
-- 'finalized' and keeps its artifact, opens every other upload that was frozen, and leaves the rest as
-- they were; and every file under blobs/ has a row.
pub recover_repairs :
    (s : Store)
    → ((recover s).uploads ≡ map (settled s.artifacts) s.uploads)
      × HasRows (recover s).blobs (recover s).blob_files
recover_repairs s = (recover-uploads s, recover-HasRows s)
