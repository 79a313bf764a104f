-- ===== src/VaultSol/Auth.antt =====
-- `load_auth` of vaultdrop.py and the token checks of its `Handler`.
pub mod Separation
use qwen_3_8_evals.Prelude.{
  String, ◌≡◌, refl, ◌≢◌, Bool, true, false, not, ◌||◌, Option, none, some, List, [], ◌∷◌, All,
  arith, str_eq, eq_iff, if◌then◌else◌, inl, inr, Option-cases, Bool-cases,
}
use qwen_3_8_evals.Json.{Json, Items, Fields, nil, cons, get, string_if, fields_of, items_of}
use qwen_3_8_evals.VaultSol.Action.{Result, closing_error}
use qwen_3_8_evals.Effect.{ok, err, fault}

-- `by_token`: token to tenant id.
abbrev pub Tokens : Type 0
Tokens = List (String × String)

unfoldable pub tenant_of : String → Tokens → Option String
tenant_of token [] = none
tenant_of token ((t, tenant) ∷ rest) = if str_eq t token then some tenant else tenant_of token rest

pub record Auth : Type 0 where
  pub tenant_tokens : Tokens
  pub admin_token : String

abbrev pub non_empty : String → Bool
non_empty s = not (str_eq s "")

abbrev pub is_known : Option String → Bool
is_known none = false
is_known (some _) = true

unfoldable pub add_token : Option String → Option String → Tokens → Result Tokens
add_token none token by_token = fault "invalid tenant id"
add_token (some tenant) none by_token = fault "invalid or duplicate tenant token"
add_token (some tenant) (some token) by_token =
    if is_known (tenant_of token by_token)
    then fault "invalid or duplicate tenant token"
    else ok ((token, tenant) ∷ by_token)

-- One item of the list of tenants.
unfoldable pub add_tenant : Option Fields → Tokens → Result Tokens
unfolding add_token
add_tenant none by_token = fault "invalid tenant entry"
add_tenant (some item) by_token =
    add_token (string_if non_empty (get "id" item)) (string_if non_empty (get "token" item))
      by_token

unfoldable pub add_tenants : Items → Tokens → Result Tokens
unfolding add_tenant
add_tenants nil by_token = ok by_token
add_tenants (cons item rest) by_token = elim (add_tenant (fields_of item) by_token) [
  | ok more ↦ add_tenants rest more
  | err e ↦ err e
  | fault m ↦ fault m
]

abbrev pub finish_auth : String → Result Tokens → Result Auth
finish_auth admin (ok by_token) =
    if is_known (tenant_of admin by_token)
    then fault "admin token must differ from tenant tokens"
    else ok (record { tenant_tokens = by_token; admin_token = admin })
finish_auth admin (err e) = err e
finish_auth admin (fault m) = fault m

abbrev pub load_fields : Option Items → Option String → Result Auth
load_fields none admin = fault "invalid tenants.json"
load_fields (some tenants) none = fault "invalid tenants.json"
load_fields (some tenants) (some admin) = finish_auth admin (add_tenants tenants [])

-- The document that `json.load` read; `none` means that it raised.
unfoldable pub load_auth : Option Json → Result Auth
unfolding add_tenants
load_auth none = fault "cannot read tenants.json"
load_auth (some doc) = elim (fields_of doc) [
  | none ↦ fault "'get' is not an attribute of the document"
  | some fs ↦ load_fields (items_of (get "tenants" fs)) (string_if non_empty (get "admin_token" fs))
]

abbrev pub or_empty : Option String → String
or_empty none = ""
or_empty (some t) = t

abbrev pub tenant_found : Option String → Result String
tenant_found none = err (closing_error 401 "unauthorized")
tenant_found (some t) = ok t

-- `Handler.tenant`, for the token behind "Bearer " in the Authorization header, if there is one.
unfoldable pub check_tenant : Auth → Option String → Result String
unfolding tenant_of
check_tenant auth token = tenant_found (tenant_of (or_empty token) auth.tenant_tokens)

-- `Handler.admin`
unfoldable pub check_admin : Auth → Option String → Result (Unit {0})
check_admin auth none = err (closing_error 403 "admin authorization required")
check_admin auth (some token) =
    if str_eq token auth.admin_token
    then ok tt
    else err (closing_error 403 "admin authorization required")
