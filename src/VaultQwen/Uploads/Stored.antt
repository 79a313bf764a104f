-- ===== src/VaultQwen/Uploads/Stored.antt =====
-- `store_chunk` of vaultdrop/qwen-v3: what it leaves in the chunk store.
use qwen_3_8_evals.Prelude.{
  ℕ, String, ◌≡◌, refl, true, Option, none, some, List, [], ◌∷◌, arith, find, any, holds,
}
use qwen_3_8_evals.Effect.{ok, ◌>>=◌}
use qwen_3_8_evals.VaultQwen.Types.{Chunk, ChunkFile, Store}
use qwen_3_8_evals.VaultQwen.Claims.{file_at, spells}
use qwen_3_8_evals.VaultQwen.Uploads.{chunk_at, place_chunk, store_chunk}

-- An index has a row if a SELECT finds one.
any-chunk :
    (u i : ℕ) (chunks : List Chunk)
    → any (chunk_at u i) chunks ≡ holds (λ _. true) (find (chunk_at u i) chunks)
unfolding any find
any-chunk u i [] = refl
any-chunk u i (c ∷ chunks) = ground (arith, any-chunk u i chunks)

any-file :
    (u i : ℕ) (files : List ChunkFile)
    → any (file_at u i) files ≡ holds (λ _. true) (find (file_at u i) files)
unfolding any find
any-file u i [] = refl
any-file u i (f ∷ files) = ground (arith, any-file u i files)

-- What was there stays there.
abbrev pub StillThere : {A : Type 0} → Option A → Option A → Type 0
StillThere none after = Unit
StillThere (some x) after = after ≡ some x

module _ (sha256 : List ℕ → ℕ) where
  -- The row and the file at one index: a file has a row with the digest of its bytes.
  abbrev pub Matches : Option Chunk → Option ChunkFile → Type 0
  Matches row none = Unit
  Matches none (some f) = ⊥
  Matches (some c) (some f) = sha256 f.content ≡ c.sha256

  abbrev pub MatchesAt : ℕ → ℕ → Store → Type 0
  MatchesAt u i s = Matches (find (chunk_at u i) s.chunks) (find (file_at u i) s.chunk_files)

  -- Row and file are there, with the digest that the text spells.
  abbrev pub HasChunk : List ℕ → Option Chunk → Option ChunkFile → Type 0
  HasChunk text none f = ⊥
  HasChunk text (some c) none = ⊥
  HasChunk text (some c) (some f) = (spells text c.sha256 ≡ true) × (sha256 f.content ≡ c.sha256)

  pub record Placed (u i : ℕ) (s t : Store) : Type 0 where
    pub row : StillThere (find (chunk_at u i) s.chunks) (find (chunk_at u i) t.chunks)
    pub file : StillThere (find (file_at u i) s.chunk_files) (find (file_at u i) t.chunk_files)
    pub matches : MatchesAt u i s → MatchesAt u i t

  place_chunk-Placed :
      (u i upload_id index : ℕ) (content : List ℕ) (n tag : ℕ) (s : Store)
      → Placed u i s (place_chunk upload_id index (sha256 content) content n tag s).1
  unfolding place_chunk ◌>>=◌ find
  place_chunk-Placed u i upload_id index content n tag s = record {
    row = ground (arith, any-chunk upload_id index s.chunks);
    file = ground (arith, any-file upload_id index s.chunk_files);
    matches = λ h.
        ground (arith, any-chunk upload_id index s.chunks, any-file upload_id index s.chunk_files);
  }

  -- Whatever a call of `store_chunk` does, a chunk that is stored already keeps its row and its file,
  -- and if each chunk file has a row with the digest of its bytes, that stays so.
  pub store_chunk-Placed :
      (tenant : String) (upload_id index : ℕ) (source : List ℕ) (declared : Option (List ℕ))
      (n tag : ℕ) (s : Store) (u i : ℕ)
      → Placed u i s (store_chunk sha256 tenant upload_id index source declared n tag s).1
  unfolding store_chunk ◌>>=◌ find
  store_chunk-Placed tenant upload_id index source declared n tag s u i = record {
    row = ground (arith, any-chunk upload_id index s.chunks);
    file = ground (arith, any-file upload_id index s.chunk_files);
    matches = λ h.
        ground (arith, any-chunk upload_id index s.chunks, any-file upload_id index s.chunk_files);
  }

  -- A `store_chunk` that returns leaves a row and a file at its index, with the digest that the
  -- header spells, if each chunk file had a row with the digest of its bytes.
  pub store_chunk_stores :
      (tenant : String) (upload_id index : ℕ) (source text : List ℕ) (n tag : ℕ) (s : Store)
      → MatchesAt upload_id index s
      → (store_chunk sha256 tenant upload_id index source (some text) n tag s).0 ≡ ok tt
      → let t = (store_chunk sha256 tenant upload_id index source (some text) n tag s).1 in
        HasChunk text
          (find (chunk_at upload_id index) t.chunks)
          (find (file_at upload_id index) t.chunk_files)
  unfolding store_chunk ◌>>=◌ find
  store_chunk_stores tenant upload_id index source text n tag s h e =
      ground (arith, any-chunk upload_id index s.chunks, any-file upload_id index s.chunk_files)
