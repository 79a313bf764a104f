-- ===== src/VaultSol/Tests/Stores.antt =====
-- The theorems of vaultdrop.py on artifacts, garbage collection and recovery at concrete inputs.
use qwen_3_8_evals.Prelude.{
  ◌<◌, ◌≡◌, refl, ◌⊎◌, true, false, none, some, ◌==◌, arith, map, ◌-◌, find, delete, count, any,
  lookup,
}
use qwen_3_8_evals.VaultSol.Action.{api_error}
use qwen_3_8_evals.Effect.{ok, err, ◌>>=◌}
use qwen_3_8_evals.VaultSol.Finalize.{artifact_owned, blob_at, refers}
use qwen_3_8_evals.VaultSol.Artifacts.{
  artifact_row, open_verified_artifact, delete_artifact, mark_invalid,
}
use qwen_3_8_evals.VaultSol.Artifacts.Serving.{Serves, Differs, open_verifies}
use qwen_3_8_evals.VaultSol.Gc.{gc, validate}
use qwen_3_8_evals.VaultSol.Gc.Complete.{scanned_of, gc_exact}
use qwen_3_8_evals.VaultSol.Gc.Validate.{good_of, marked, validate_exact}
use qwen_3_8_evals.VaultSol.Recover.{recover}
use qwen_3_8_evals.VaultSol.Recover.Repairs.{
  settled, HasRows, recover_repairs, recover_restores, trash_content,
}
use qwen_3_8_evals.VaultSol.Invariant.{IsValid}
use qwen_3_8_evals.VaultSol.Samples.{toy_hash, report_artifact, bytes, stored, trashed}

pub stored-IsValid : IsValid toy_hash stored
unfolding count any lookup
stored-IsValid = record {
  refs = (refl, (refl, tt));
  backed = (refl, tt);
  served = ((refl, refl), tt);
  distinct_ids = (refl, tt);
  distinct_hashes = (refl, (refl, tt));
}

report_found : find (artifact_owned "acme" 7) stored.artifacts ≡ some report_artifact
unfolding find
report_found = refl

not_bobs : find (artifact_owned "bob" 7) stored.artifacts ≡ none
unfolding find
not_bobs = refl

delete_runs : (delete_artifact "acme" 7 stored).0 ≡ ok tt
unfolding delete_artifact artifact_row ◌>>=◌ find count
delete_runs = refl

unknown_digest : any (blob_at 999) stored.blobs ≡ false
unfolding any
unknown_digest = refl

known_digest : any (blob_at 1430) trashed.blobs ≡ true
unfolding any
known_digest = refl

one_reference : 0 < count (refers 1430) trashed.artifacts
unfolding count
one_reference = omega arith

no_file : lookup 1430 trashed.blob_files ≡ none
unfolding lookup
no_file = refl

in_trash : trash_content 1430 trashed.trash ≡ some bytes
unfolding trash_content
in_trash = refl

open_verifies_example :
    let (r, t) = open_verified_artifact toy_hash "acme" 7 trashed in
    (Serves toy_hash report_artifact r × (t ≡ trashed))
    ⊎ ((lookup 1430 trashed.blob_files ≡ none)
        × (r ≡ err (api_error 500 "artifact bytes unavailable"))
        × (t ≡ trashed))
    ⊎ (Differs toy_hash report_artifact (lookup 1430 trashed.blob_files)
        × (r ≡ err (api_error 500 "artifact failed integrity verification"))
        × (t ≡ mark_invalid 1430 trashed))
open_verifies_example = open_verifies toy_hash "acme" 7 report_artifact trashed report_found

gc_exact_example :
    ((gc (λ d. d) stored).1.blobs ≡ delete (λ b. b.refcount == 0) stored.blobs)
    × (scanned_of (gc (λ d. d) stored).0 ≡ count (λ b. b.refcount == 0) stored.blobs)
gc_exact_example = gc_exact (λ d. d) stored stored-IsValid.distinct_hashes

validate_exact_example :
    let valid = count (good_of toy_hash (λ _. false) trashed) trashed.blobs in
    validate toy_hash (λ _. false) false trashed ≡ (
      ok (record { scanned = 2; valid = valid; invalid = 2 - valid }),
      record trashed { blobs = map (marked toy_hash (λ _. false) trashed) trashed.blobs },
    )
validate_exact_example = validate_exact toy_hash (λ _. false) trashed stored-IsValid.distinct_hashes

recover_repairs_example :
    ((recover trashed).uploads ≡ map (settled trashed.artifacts) trashed.uploads)
    × HasRows (recover trashed).blobs (recover trashed).blob_files
recover_repairs_example = recover_repairs trashed

recover_restores_example : lookup 1430 (recover trashed).blob_files ≡ some bytes
recover_restores_example =
    recover_restores trashed 1430 bytes known_digest one_reference no_file in_trash
