-- ===== src/VaultSol/Tests.antt =====
-- Runs of vaultdrop.py's model, and its theorems on uploads at concrete inputs.
mod Stores
mod Requests
use qwen_3_8_evals.Prelude.{
  ℕ, ◌<◌, ◌≤◌, ◌++◌, str_eq, ◌≡◌, refl, ap, ◌≢◌, Bool, true, false, Option, none, some, List, [],
  ◌∷◌, ◌&&◌, ◌||◌, ◌==◌, if◌then◌else◌, length, take, leb, arith, find, select, update, delete, any,
  lookup, without, put,
}
use qwen_3_8_evals.Prelude.Int.{ℤ, pos}
use qwen_3_8_evals.VaultSol.Types.{uploading, finalized, is_finalizing, Upload, Store}
use qwen_3_8_evals.VaultSol.Action.{api_error, closing_error}
use qwen_3_8_evals.Effect.{ok, err, is_ok, ◌>>=◌, finally, on_fault}
use qwen_3_8_evals.VaultSol.Uploads.{
  owned, chunk_at, read_body, chunk_count, wanted_size, in_range, check_chunk, commit_chunk,
  replay_or_insert, install_chunk, insert_chunk, put_chunk, write_temp, unlink_temp, upload_status,
}
use qwen_3_8_evals.VaultSol.Uploads.Body.{
  read_body_exact, wanted_below, wanted_total, wanted_size_bounds,
}
use qwen_3_8_evals.VaultSol.Uploads.Replay.{
  SameData, HasChunk, put_chunk_error_keeps, put_chunk_stores,
}
use qwen_3_8_evals.VaultSol.Uploads.Foreign.{foreign_upload}
use qwen_3_8_evals.VaultSol.Finalize.{
  freeze_upload, build, publish_content, reject, install_blob, commit_artifact, cleanup_chunk_files,
  finish_frozen, assemble, finalize, chunk_sizes,
}
use qwen_3_8_evals.VaultSol.Finalize.Outcome.{IsComplete, finalize_completes, finalize_error_keeps}
use qwen_3_8_evals.VaultSol.Finalize.Download.{
  Delivers, finalize_then_open, Settled, finalize-Settled,
}
use qwen_3_8_evals.VaultSol.Artifacts.{open_verified_artifact}
use qwen_3_8_evals.VaultSol.Samples.{
  toy_hash, bytes, acme_upload, finished_upload, fresh, loaded, report_blob, stored,
}

finalize_runs :
    finalize toy_hash true "acme" 1 1430 5 7 9 200 loaded
    ≡ (ok 7, record stored { blobs = report_blob ∷ []; blob_files = (1430, bytes) ∷ [] })
unfolding finalize freeze_upload finish_frozen build publish_content reject install_blob
    commit_artifact cleanup_chunk_files write_temp assemble chunk_count finally on_fault ◌>>=◌ find
    select update delete any lookup without put unlink_temp
finalize_runs = refl

-- With another digest it does not.
finalize_rejects : is_ok (finalize toy_hash true "acme" 1 1431 5 7 9 200 loaded).0 ≡ false
unfolding finalize freeze_upload finish_frozen build publish_content reject install_blob
    commit_artifact cleanup_chunk_files write_temp assemble chunk_count finally on_fault ◌>>=◌ find
    select update delete any lookup without put unlink_temp
finalize_rejects = refl

-- An OSError before the `try` leaves the upload frozen.
finalize_stuck :
    any
      (λ u. is_finalizing u.state)
      (finalize toy_hash false "acme" 1 1430 5 7 9 200 loaded).1.uploads
    ≡ true
unfolding finalize freeze_upload finish_frozen chunk_count ◌>>=◌ find select update any
finalize_stuck = refl

upload_found : find (owned "acme" 1) loaded.uploads ≡ some acme_upload
unfolding find
upload_found = refl

abbrev body : List ℕ
body = 30 ∷ 40 ∷ 99 ∷ []

put_chunk_runs : (put_chunk toy_hash "acme" 1 (pos 1) 582 body 2 9 fresh).0 ≡ ok tt
unfolding put_chunk check_chunk commit_chunk replay_or_insert install_chunk insert_chunk read_body
    in_range wanted_size chunk_count write_temp unlink_temp finally ◌>>=◌ find delete
put_chunk_runs = refl

put_chunk_rejects :
    (put_chunk toy_hash "acme" 1 (pos 1) 583 (30 ∷ 40 ∷ 99 ∷ []) 2 9 fresh).0 ≢ ok tt
unfolding put_chunk check_chunk commit_chunk replay_or_insert install_chunk insert_chunk read_body
    in_range wanted_size chunk_count write_temp unlink_temp finally ◌>>=◌ find delete
put_chunk_rejects = ground arith

nobody : find (owned "bob" 1) loaded.uploads ≡ none
unfolding find
nobody = refl

all_chunks : IsComplete acme_upload (chunk_sizes 1 loaded.chunks)
unfolding select chunk_count
all_chunks = (refl, refl)

all_bytes : assemble 1 0 (chunk_count acme_upload) loaded.chunk_files ≡ some bytes
unfolding assemble chunk_count find
all_bytes = refl

no_artifact : any (λ a. a.id == 7 || a.upload_id == 1) loaded.artifacts ≡ false
unfolding any
no_artifact = refl

finalize_then_open_example :
    Delivers toy_hash acme_upload 1430 5
      (assemble 1 0 (chunk_count acme_upload) loaded.chunk_files)
      (open_verified_artifact toy_hash "acme" 7
        (finalize toy_hash true "acme" 1 1430 5 7 9 200 loaded).1).0
finalize_then_open_example =
    finalize_then_open toy_hash true "acme" 1 1430 5 7 9 200 7 loaded acme_upload upload_found refl
      (ap (λ x. x.0) finalize_runs)

finalize_error_keeps_example :
    let t = (finalize toy_hash true "acme" 1 1431 5 7 9 200 loaded).1 in
    (t.artifacts ≡ loaded.artifacts) × (t.blobs ≡ loaded.blobs)
finalize_error_keeps_example =
    finalize_error_keeps toy_hash true "acme" 1 1431 5 7 9 200 loaded finalize_rejects

finalize-Settled_example :
    Settled 1 (finalize toy_hash true "acme" 1 1431 5 7 9 200 loaded).1.uploads
finalize-Settled_example = finalize-Settled toy_hash "acme" 1 1431 5 7 9 200 loaded (refl, tt)

put_chunk_stores_example :
    let t = (put_chunk toy_hash "acme" 1 (pos 1) 582 body 2 9 fresh).1 in
    (2 ≤ length body)
    × (toy_hash (take 2 body) ≡ 582)
    × HasChunk 2 582 (find (chunk_at 1 1) t.chunks)
put_chunk_stores_example = put_chunk_stores toy_hash "acme" 1 1 582 body 2 9 fresh put_chunk_runs

finalize_completes_example :
    ((finalize toy_hash true "acme" 1 1430 5 7 9 200 loaded).0 ≡ ok 7)
    × ((finalize toy_hash true "acme" 1 1430 5 7 9 200 loaded).1.chunk_files
        ≡ delete (λ f. f.upload_id == 1) loaded.chunk_files)
finalize_completes_example =
    finalize_completes toy_hash "acme" 1 1430 7 9 200 loaded acme_upload bytes upload_found refl
      all_chunks all_bytes refl refl no_artifact

read_body_exact_example :
    read_body 6 6 bytes [] ≡ (if leb 6 (length bytes) then some ([] ++ take 6 bytes) else none)
read_body_exact_example = read_body_exact 6 6 bytes [] (omega arith)
