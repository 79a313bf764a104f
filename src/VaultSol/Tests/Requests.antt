-- ===== src/VaultSol/Tests/Requests.antt =====
-- The theorems of vaultdrop.py on tokens and requests at concrete inputs.
use qwen_3_8_evals.Prelude.{true, String, ◌≡◌, refl, false, Option, none, some, [], ◌∷◌}
use qwen_3_8_evals.Json.{Json, str, arr, obj, cons, nil, field, end, get}
use qwen_3_8_evals.Effect.{ok}
use qwen_3_8_evals.VaultSol.Auth.{
  Auth, tenant_of, add_token, add_tenant, add_tenants, load_auth, check_tenant,
}
use qwen_3_8_evals.VaultSol.Http.{Request}
use qwen_3_8_evals.VaultSol.Http.Dispatch.{Env, handle}
use qwen_3_8_evals.VaultSol.Http.Valid.{handle-IsValid}
use qwen_3_8_evals.VaultSol.Invariant.{IsValid}
use qwen_3_8_evals.VaultSol.Samples.{toy_hash, toy_hash-length, stored}
use qwen_3_8_evals.VaultSol.Tests.Stores.{stored-IsValid}

abbrev tenants : Json
tenants = obj (
    field "tenants" (arr (cons (obj (field "id" (str "acme") (field "token" (str "t1") end))) nil))
      (field "admin_token" (str "root") end))

abbrev auth : Auth
auth = record { tenant_tokens = ("t1", "acme") ∷ []; admin_token = "root" }

auth_loads : load_auth (some tenants) ≡ ok auth
unfolding load_auth add_tenants add_tenant add_token tenant_of get
auth_loads = refl

known_token : check_tenant auth (some "t1") ≡ ok "acme"
unfolding check_tenant tenant_of
known_token = refl

abbrev env : Env
env = record {
  sha256 = toy_hash;
  parse_int = λ _. none;
  loads = λ _. none;
  new_id = 8;
  directory_ready = true;
  tag = 9;
  trash_tag = λ d. d;
  replaced = λ _. false;
  locked = false;
  now = 300;
}

abbrev delete_request : Option String → Request
delete_request bearer = record {
  method = "DELETE";
  path = "/artifacts/00000000000000000000000000000007";
  bearer = bearer;
  transfer_encoding = none;
  content_length = none;
  checksum = "";
  body = [];
}

handle-IsValid_example : IsValid toy_hash (handle env auth (delete_request (some "t1")) stored).1
handle-IsValid_example =
    handle-IsValid env auth toy_hash-length (delete_request (some "t1")) stored stored-IsValid
