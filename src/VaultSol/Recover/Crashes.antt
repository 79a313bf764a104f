-- ===== src/VaultSol/Recover/Crashes.antt =====
-- What `recover` of vaultdrop.py makes of the state that a crash left.
use qwen_3_8_evals.Prelude.{◌≡◌, [], map}
use qwen_3_8_evals.VaultSol.Types.{Store}
use qwen_3_8_evals.VaultSol.Recover.Repairs.{settled, HasRows}

-- Nothing of the crashed request is left: the uploads are settled, and no temporary, no file in the trash
-- and no file of a blob without a row is there.
pub record IsCleared (t r : Store) : Type 0 where
  uploads : r.uploads ≡ map (settled t.artifacts) t.uploads
  temps : r.temps ≡ []
  trash : r.trash ≡ []
  rows : HasRows r.blobs r.blob_files
