-- ===== src/VaultQwen/Recover.antt =====
-- vaultdrop/qwen-v3/src/db.py: `recover`, which runs before the first request.
use qwen_3_8_evals.Prelude.{
  ℕ, Bool, true, false, ◌&&◌, none, List, [], ◌∷◌, map, ◌==◌, if◌then◌else◌, select, update, delete,
  any, lookup, Dict,
}
use qwen_3_8_evals.Effect.{pure, fault_if, gets, modify, ◌>>=◌, ◌>>◌}
use qwen_3_8_evals.VaultQwen.Types.{
  opened, is_finalizing, Chunk, active, is_collecting, Blob, ChunkFile, Store, Action,
}
use qwen_3_8_evals.VaultQwen.Blobs.{blob_at, is_present, is_referenced}

-- UPDATE uploads SET state='open' WHERE state='finalizing'
unfoldable pub reopen : Store → Store
reopen s = record s {
  uploads = update (λ u. is_finalizing u.state) (λ u. record u { state = opened }) s.uploads;
}

-- UPDATE blobs SET state='active', gc_pass_id=NULL WHERE hash=?
unfoldable pub revive : ℕ → Store → Store
revive digest s = record s {
  blobs = update (blob_at digest) (λ b. record b { state = active; gc_pass_id = none }) s.blobs;
}

-- DELETE FROM blobs WHERE hash=?
unfoldable pub forget : ℕ → Store → Store
forget digest s = record s { blobs = delete (blob_at digest) s.blobs }

unfoldable pub recover_row : Bool → ℕ → Action (Unit {0})
unfolding revive forget is_referenced
recover_row true digest = modify (revive digest)
recover_row false digest = do
  held ← gets (is_referenced (blob_at digest))
  fault_if held "FOREIGN KEY constraint failed"
  modify (forget digest)

-- The loop over the rows in state 'collecting'.
unfoldable pub recover_rows : List ℕ → Action (Unit {0})
unfolding recover_row
recover_rows [] = pure tt
recover_rows (digest ∷ rest) = do
  there ← gets (λ s. is_present (lookup digest s.blob_files))
  recover_row there digest
  recover_rows rest

unfoldable pub known_files : List Blob → Dict (List ℕ) → Dict (List ℕ)
known_files blobs [] = []
known_files blobs ((digest, content) ∷ files) =
    let rest = known_files blobs files in
    if any (blob_at digest) blobs then (digest, content) ∷ rest else rest

abbrev pub has_row : List Chunk → ChunkFile → Bool
has_row chunks f = any (λ c. c.upload_id == f.upload_id && c.chunk_index == f.index) chunks

-- `_sweep_orphans`
unfoldable pub sweep_orphans : Store → Store
unfolding known_files
sweep_orphans s = record s {
  blob_files = known_files s.blobs s.blob_files;
  chunk_files = select (has_row s.chunks) s.chunk_files;
  temps = [];
}

unfoldable pub recover : Action (Unit {0})
unfolding reopen recover_rows sweep_orphans
recover = do
  modify reopen
  stuck ← gets (λ s. map (λ b. b.hash) (select (λ b. is_collecting b.state) s.blobs))
  recover_rows stuck
  modify sweep_orphans
