-- ===== src/Vault27b/Tests/Requests.antt =====
-- The requests of vaultdrop/qwen-3-8-27b-v2 that one step answers, on the runs of Tests.
use qwen_3_8_evals.Prelude.{
  ◌≡◌, refl, true, arith, some, [], ◌∷◌, sum, find, lookup, count, any, select, put, delete,
}
use qwen_3_8_evals.Text.{codes, hex_value}
use qwen_3_8_evals.Effect.{ok, err, ◌>>=◌}
use qwen_3_8_evals.Vault27b.Types.{Artifact, Store, empty, api_error, active}
use qwen_3_8_evals.Vault27b.Transactions.{artifact_owned}
use qwen_3_8_evals.Vault27b.Threads.{accept, advance}
use qwen_3_8_evals.Vault27b.System.{perform}
use qwen_3_8_evals.Vault27b.Uploads.{put_chunk}
use qwen_3_8_evals.Vault27b.Uploads.Stored.{IsBacked, put_chunk-IsBacked, put_chunk_replays}
use qwen_3_8_evals.Vault27b.Artifacts.{download, validate_pass}
use qwen_3_8_evals.Vault27b.Artifacts.Served.{download-serves}
use qwen_3_8_evals.Vault27b.Tests.{
  done, create_at, hex_six, uploaded, published, published_run, published_current,
}

published-downloads : download "t" 11 published.store ≡ ok (1 ∷ 2 ∷ 3 ∷ [])
unfolding download perform advance accept find ◌>>=◌ any hex_value count lookup put
published-downloads = refl

download-serves_example :
    (a : Artifact) × (find (artifact_owned "t" 11) published.store.artifacts ≡ some a)
    × (a.artifact_id ≡ 11)
    × (a.tenant_id ≡ "t")
    × (6 ≡ a.sha256)
    × (3 ≡ a.size)
download-serves_example =
    download-serves sum published published_run published_current "t" 11 (1 ∷ 2 ∷ 3 ∷ [])
      published-downloads

-- A second upload beside the one that has its chunk.
abbrev two_uploads : Store
two_uploads = (done (create_at 2) uploaded).store

two_uploads-IsBacked : IsBacked sum two_uploads
unfolding perform find ◌>>=◌ any hex_value delete
two_uploads-IsBacked u i = ground arith

second-puts :
    (put_chunk sum "t" 2 0 (1 ∷ 2 ∷ 3 ∷ []) (some (codes hex_six)) 3 two_uploads).0 ≡ ok tt
unfolding put_chunk perform find ◌>>=◌ any hex_value delete
second-puts = refl

put_chunk-IsBacked_example :
    IsBacked sum (put_chunk sum "t" 2 0 (1 ∷ 2 ∷ 3 ∷ []) (some (codes hex_six)) 3 two_uploads).1
put_chunk-IsBacked_example =
    put_chunk-IsBacked sum "t" 2 0 (1 ∷ 2 ∷ 3 ∷ []) (some (codes hex_six)) 3 two_uploads
      two_uploads-IsBacked

uploaded-puts :
    put_chunk sum "t" 1 0 (1 ∷ 2 ∷ 3 ∷ []) (some (codes hex_six)) 3 uploaded.store
    ≡ (ok tt, uploaded.store)
unfolding put_chunk perform find ◌>>=◌ any hex_value delete
uploaded-puts = refl

put_chunk_replays_example :
    put_chunk sum "t" 1 0 (1 ∷ 2 ∷ 3 ∷ []) (some (codes hex_six)) 3 uploaded.store
    ≡ (ok tt, uploaded.store)
put_chunk_replays_example =
    put_chunk_replays sum "t" 1 0 (1 ∷ 2 ∷ 3 ∷ []) (some (codes hex_six)) 3 uploaded.store
      uploaded.store uploaded-puts

-- A row without its file ends the pass, and keeps its flag.
abbrev lost : Store
lost = record empty {
  blobs =
      record {
        content_hash = 6;
        size = 3;
        refcount = 1;
        state = active;
        validated = true;
        created_at = 2;
      }
      ∷ [];
}

lost-unvalidated :
    validate_pass sum lost ≡ (err (api_error 422 "stored chunk missing; re-upload required"), lost)
unfolding validate_pass select lookup
lost-unvalidated = refl
