-- ===== src/VaultSol/Auth/Separation.antt =====
-- The tokens that `load_auth` of vaultdrop.py accepts.
use qwen_3_8_evals.Prelude.{
  String, ◌≡◌, refl, Bool, true, Option, none, some, [], arith, eq_iff, inl, inr, Option-cases,
}
use qwen_3_8_evals.Json.{
  Json, Items, Fields, null, bool, num, float, str, arr, obj, nil, cons, get, string_if, fields_of,
  items_of,
}
use qwen_3_8_evals.VaultSol.Action.{Result, closing_error}
use qwen_3_8_evals.Effect.{ok, err, fault}
use qwen_3_8_evals.VaultSol.Auth.{
  Tokens, tenant_of, Auth, non_empty, add_token, add_tenant, add_tenants, finish_auth, load_fields,
  load_auth, check_tenant, check_admin,
}

string_if-holds : (p : String → Bool) (j : Json) (t : String) → string_if p j ≡ some t → p t ≡ true
string_if-holds p null t e = cc
string_if-holds p (bool _) t e = cc
string_if-holds p (num _) t e = cc
string_if-holds p (float _) t e = cc
string_if-holds p (arr _) t e = cc
string_if-holds p (obj _) t e = cc
string_if-holds p (str s) t e = ground arith

-- No token of the table is the empty text.
abbrev NoEmpty : Result Tokens → Type 0
NoEmpty (ok by_token) = tenant_of "" by_token ≡ none
NoEmpty (err _) = Unit
NoEmpty (fault _) = Unit

add_token-NoEmpty :
    (tenant token : Option String) (by_token : Tokens)
    → ((t : String) → token ≡ some t → non_empty t ≡ true)
    → tenant_of "" by_token ≡ none
    → NoEmpty (add_token tenant token by_token)
unfolding add_token tenant_of
add_token-NoEmpty none token by_token h e = tt
add_token-NoEmpty (some tenant) none by_token h e = tt
add_token-NoEmpty (some tenant) (some token) by_token h e = ground (arith, h token refl)

add_tenant-NoEmpty :
    (item : Option Fields) (by_token : Tokens)
    → tenant_of "" by_token ≡ none
    → NoEmpty (add_tenant item by_token)
unfolding add_tenant
add_tenant-NoEmpty none by_token e = tt
add_tenant-NoEmpty (some item) by_token e =
    add_token-NoEmpty (string_if non_empty (get "id" item)) (string_if non_empty (get "token" item))
      by_token (λ t q. string_if-holds non_empty (get "token" item) t q) e

add_tenants-NoEmpty :
    (items : Items) (by_token : Tokens)
    → tenant_of "" by_token ≡ none
    → NoEmpty (add_tenants items by_token)
unfolding add_tenants
add_tenants-NoEmpty nil by_token e = e
add_tenants-NoEmpty (cons item rest) by_token e =
    step (add_tenant (fields_of item) by_token) (λ more. add_tenants-NoEmpty rest more)
      (add_tenant-NoEmpty (fields_of item) by_token e)
  where
    step :
        (r : Result Tokens)
        → ((more : Tokens) → tenant_of "" more ≡ none → NoEmpty (add_tenants rest more))
        → NoEmpty r
        → NoEmpty (elim r [ ok more ↦ add_tenants rest more | err e ↦ err e | fault m ↦ fault m ])
    step (ok more) ih h = ih more h
    step (err x) ih h = tt
    step (fault x) ih h = tt

-- What holds of the tokens that were accepted.
abbrev Separated : Result Auth → Type 0
Separated (ok auth) =
    (tenant_of "" auth.tenant_tokens ≡ none)
    × (tenant_of auth.admin_token auth.tenant_tokens ≡ none)
Separated (err _) = Unit
Separated (fault _) = Unit

finish_auth-Separated :
    (admin : String) (r : Result Tokens) → NoEmpty r → Separated (finish_auth admin r)
finish_auth-Separated admin (ok by_token) h = ground arith
finish_auth-Separated admin (err e) h = tt
finish_auth-Separated admin (fault m) h = tt

load_fields-Separated :
    (tenants : Option Items) (admin : Option String) → Separated (load_fields tenants admin)
load_fields-Separated none admin = tt
load_fields-Separated (some tenants) none = tt
load_fields-Separated (some tenants) (some admin) =
    finish_auth-Separated admin (add_tenants tenants [])
      (add_tenants-NoEmpty tenants [] (unfold tenant_of in refl))

load_auth-Separated : (doc : Option Json) → Separated (load_auth doc)
unfolding load_auth
load_auth-Separated none = tt
load_auth-Separated (some doc) = elim (Option-cases (fields_of doc)) [
  | inl e ↦ rw (e, load_auth) tt
  | inr (fs, e) ↦
      rw (e, load_auth)
        (load_fields-Separated (items_of (get "tenants" fs))
          (string_if non_empty (get "admin_token" fs)))
]

-- With a tenants.json that `load_auth` accepts, neither the admin token nor a missing token is
-- any tenant's: both are a 401.
pub load_auth-check_tenant :
    (doc : Option Json) (auth : Auth)
    → load_auth doc ≡ ok auth
    → (check_tenant auth (some auth.admin_token) ≡ err (closing_error 401 "unauthorized"))
      × (check_tenant auth none ≡ err (closing_error 401 "unauthorized"))
unfolding check_tenant
load_auth-check_tenant doc auth e =
    let (no_empty, no_admin) = rw e at (load_auth-Separated doc) in (rw no_admin, rw no_empty)

-- Nor is a tenant's token the admin's: a token that names a tenant is a 403 on the admin's routes.
pub tenant-check_admin :
    (doc : Option Json) (auth : Auth) (token tenant : String)
    → load_auth doc ≡ ok auth
    → check_tenant auth (some token) ≡ ok tenant
    → check_admin auth (some token) ≡ err (closing_error 403 "admin authorization required")
unfolding check_tenant check_admin
tenant-check_admin doc auth token tenant e known =
    let (no_empty, no_admin) = rw e at (load_auth-Separated doc) in
    ground (arith, no_admin, eq_iff token auth.admin_token)
