-- ===== src/VaultQwen/Tests/Requests.antt =====
-- Chunks and requests of vaultdrop/qwen-v3 on concrete stores.
use qwen_3_8_evals.Prelude.{ℕ, ◌≡◌, refl, false, none, some, List, [], ◌∷◌, sum, find, any}
use qwen_3_8_evals.Prelude.Int.{pos}
use qwen_3_8_evals.Json.{num, str}
use qwen_3_8_evals.Text.{codes, hex_value, split_parts, same_text}
use qwen_3_8_evals.Effect.{ok, ◌>>=◌}
use qwen_3_8_evals.VaultQwen.Types.{Store, empty}
use qwen_3_8_evals.VaultQwen.Claims.{file_at}
use qwen_3_8_evals.VaultQwen.Uploads.{start_upload, store_chunk, chunk_at}
use qwen_3_8_evals.VaultQwen.Uploads.Stored.{
  Placed, store_chunk-Placed, HasChunk, store_chunk_stores,
}
use qwen_3_8_evals.VaultQwen.Http.{Registry, HttpRequest, Env, authenticate}
use qwen_3_8_evals.VaultQwen.Routes.{dispatch, segments, is_health, is_admin_path}
use qwen_3_8_evals.VaultQwen.Routes.Separation.{refusal, CarriesFor, dispatch-CarriesFor}

abbrev hex_six : List ℕ
hex_six = codes "0000000000000000000000000000000000000000000000000000000000000006"

abbrev created : Store
created = (start_upload "t" (str "a") (num (pos 5)) (num (pos 3)) 1 1 empty).1

abbrev stored : Store
stored = (store_chunk sum "t" 1 0 (1 ∷ 2 ∷ 3 ∷ []) (some hex_six) 3 7 created).1

abbrev five_bytes : List ℕ
five_bytes = 1 ∷ 2 ∷ 3 ∷ 4 ∷ 5 ∷ []

-- Other bytes at an index that is stored.
store_chunk-Placed_example :
    Placed sum 1 0 stored (store_chunk sum "t" 1 0 (1 ∷ 1 ∷ 4 ∷ []) (some hex_six) 3 8 stored).1
store_chunk-Placed_example =
    store_chunk-Placed sum "t" 1 0 (1 ∷ 1 ∷ 4 ∷ []) (some hex_six) 3 8 stored 1 0

chunk_runs : (store_chunk sum "t" 1 0 (1 ∷ 2 ∷ 3 ∷ []) (some hex_six) 3 7 created).0 ≡ ok tt
unfolding start_upload store_chunk ◌>>=◌ find any hex_value
chunk_runs = refl

created-chunks : find (chunk_at 1 0) created.chunks ≡ none
unfolding start_upload ◌>>=◌ find any
created-chunks = refl

created-files : find (file_at 1 0) created.chunk_files ≡ none
unfolding start_upload ◌>>=◌ find any
created-files = refl

store_chunk_stores_example :
    HasChunk sum hex_six (find (chunk_at 1 0) stored.chunks) (find (file_at 1 0) stored.chunk_files)
store_chunk_stores_example =
    store_chunk_stores sum "t" 1 0 (1 ∷ 2 ∷ 3 ∷ []) hex_six 3 7 created (rw created-files tt)
      chunk_runs

abbrev env : Env
env = record {
  parse_int = λ t. none;
  loads = λ t. none;
  sha256 = sum;
  new_id = 1;
  tag = 2;
  now = 3;
}

abbrev registry : Registry
registry = record { tenants = ("t1", "t") ∷ []; admin = some "root" }

abbrev gc_request : HttpRequest
gc_request = record {
  method = "POST";
  path = "/admin/gc";
  bearer = some "t1";
  content_length = none;
  checksum = none;
  body = [];
}

gc_request-path : is_health (segments gc_request) ≡ false
unfolding split_parts same_text
gc_request-path = refl

gc_request-refused :
    refusal (authenticate registry (some "t1")) (is_admin_path (segments gc_request))
    ≡ some (404, "not found")
unfolding split_parts same_text authenticate
gc_request-refused = refl

dispatch-CarriesFor_example :
    CarriesFor registry
      (some "root")
      (dispatch env registry (record gc_request { bearer = some "root" }) created).0
dispatch-CarriesFor_example =
    dispatch-CarriesFor env registry (record gc_request { bearer = some "root" }) created
