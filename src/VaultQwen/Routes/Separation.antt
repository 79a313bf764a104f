-- ===== src/VaultQwen/Routes/Separation.antt =====
-- Who may do what over vaultdrop/qwen-v3/src/httpd.py.
use qwen_3_8_evals.Prelude.{
  ℕ, ◌≡◌, ◌≢◌, ◌⊎◌, inl, inr, [], ◌∷◌, str_eq, eq_iff, Bool-cases, Option-cases, refl, String, Bool,
  true, false, Option, none, some, List, arith,
}
use qwen_3_8_evals.VaultQwen.Types.{Store}
use qwen_3_8_evals.VaultQwen.Workers.{Request, finalize, delete_artifact, gc}
use qwen_3_8_evals.VaultQwen.Http.{
  Registry, Identity, tenant, admin, invalid, authenticate, tenant_of, HttpRequest, error,
  Dispatched, replied, begun, Env,
}
use qwen_3_8_evals.VaultQwen.Routes.{
  put_chunk, run_admin, tenant_route, is_admin_path, is_health, as_identity, segments, dispatch,
}

-- The answer to a caller who is not the one that the path is for.
abbrev pub refusal : Identity → Bool → Option (ℕ × String)
refusal invalid admin_path = some (401, "unauthorized")
refusal (tenant t) true = some (404, "not found")
refusal (tenant t) false = none
refusal admin true = none
refusal admin false = some (401, "unauthorized")

refusal-as_identity :
    (env : Env) (who : Identity) (segs : List (List ℕ)) (r : HttpRequest) (s : Store) (b : Bool)
    (code : ℕ) (message : String)
    → is_admin_path segs ≡ b
    → refusal who b ≡ some (code, message)
    → as_identity env who segs r s ≡ (replied code (error message), s)
unfolding as_identity
refusal-as_identity env who segs r s b code message e h = ground arith

-- Of the paths other than /health, any is a 401 to a token of nobody, one of the admin is a 404 to a
-- tenant, and one of the tenants is a 401 to the admin, and nothing is changed or begun.
pub dispatch_separates :
    (env : Env) (registry : Registry) (r : HttpRequest) (s : Store) (code : ℕ) (message : String)
    → is_health (segments r) ≡ false
    → refusal (authenticate registry r.bearer) (is_admin_path (segments r)) ≡ some (code, message)
    → dispatch env registry r s ≡ (replied code (error message), s)
unfolding dispatch
dispatch_separates env registry r s code message h e =
    rw h (refusal-as_identity env _ (segments r) r s _ code message refl e)

-- Who may begin a request.
abbrev pub May : Identity → Request → Type 0
May (tenant t) (finalize owner _ _ _ _ _) = owner ≡ t
May (tenant t) (delete_artifact owner _) = owner ≡ t
May (tenant t) (gc _) = ⊥
May admin (gc _) = Unit
May admin (finalize _ _ _ _ _ _) = ⊥
May admin (delete_artifact _ _) = ⊥
May invalid r = ⊥

abbrev pub MayBegin : Identity → Dispatched → Type 0
MayBegin who (replied _ _) = Unit
MayBegin who (begun r) = May who r

module _ (env : Env) (s : Store) where
  put_chunk-MayBegin :
      (t : String) (u i : List ℕ) (r : HttpRequest)
      → MayBegin (tenant t) (put_chunk env t u i r s).0
  unfolding put_chunk
  put_chunk-MayBegin t u i r = ground arith

  tenant_route-MayBegin :
      (t : String) (segs : List (List ℕ)) (r : HttpRequest)
      → MayBegin (tenant t) (tenant_route env t segs r s).0
  unfolding tenant_route
  tenant_route-MayBegin t segs r = ground arith

  run_admin-MayBegin :
      (method : String) (segs : List (List ℕ)) → MayBegin admin (run_admin env method segs s).0
  unfolding run_admin
  run_admin-MayBegin method segs = ground arith

  as_identity-MayBegin :
      (who : Identity) (segs : List (List ℕ)) (r : HttpRequest)
      → MayBegin who (as_identity env who segs r s).0
  unfolding as_identity
  as_identity-MayBegin invalid segs r = tt
  as_identity-MayBegin (tenant t) segs r = ground (arith, tenant_route-MayBegin t segs r)
  as_identity-MayBegin admin segs r = ground (arith, run_admin-MayBegin r.method segs)

  dispatch-MayBegin :
      (registry : Registry) (r : HttpRequest)
      → MayBegin (authenticate registry r.bearer) (dispatch env registry r s).0
  unfolding dispatch
  dispatch-MayBegin registry r =
      ground (arith, as_identity-MayBegin (authenticate registry r.bearer) (segments r) r)

-- The registry lists a token for a tenant.
unfoldable pub Lists : List (String × String) → String → String → Type 0
Lists [] token owner = ⊥
Lists ((t, i) ∷ rest) token owner = ((t ≡ token) × (i ≡ owner)) ⊎ Lists rest token owner

-- Who may carry a token that begins a request: a tenant for itself, and the admin for a collection.
abbrev pub Carries : Registry → Option String → Request → Type 0
Carries registry none r = ⊥
Carries registry (some token) (finalize owner _ _ _ _ _) = Lists registry.tenants token owner
Carries registry (some token) (delete_artifact owner _) = Lists registry.tenants token owner
Carries registry (some token) (gc _) = registry.admin ≡ some token

abbrev pub CarriesFor : Registry → Option String → Dispatched → Type 0
CarriesFor registry bearer (replied _ _) = Unit
CarriesFor registry bearer (begun r) = Carries registry bearer r

tenant_of-Lists :
    (token owner : String) (tenants : List (String × String))
    → tenant_of token tenants ≡ tenant owner
    → Lists tenants token owner
unfolding tenant_of Lists
tenant_of-Lists token owner [] e = cc
tenant_of-Lists token owner ((t, i) ∷ rest) e = elim (Bool-cases (str_eq t token)) [
  | inl same ↦ inl (ground (arith, same, e, eq_iff t token))
  | inr other ↦ inr (tenant_of-Lists token owner rest (ground (arith, other, e)))
]

tenant_of-not_admin :
    (token : String) (tenants : List (String × String)) → tenant_of token tenants ≢ admin
unfolding tenant_of
tenant_of-not_admin token [] e = cc
tenant_of-not_admin token ((t, i) ∷ rest) e = ground (arith, e, tenant_of-not_admin token rest)

authenticate-tenant :
    (registry : Registry) (bearer : Option String) (owner : String)
    → authenticate registry bearer ≡ tenant owner
    → (token : String) × (bearer ≡ some token) × Lists registry.tenants token owner
unfolding authenticate
authenticate-tenant registry none owner e = cc
authenticate-tenant registry (some token) owner e =
    (token, refl, tenant_of-Lists token owner registry.tenants (ground (arith, e)))

authenticate-admin :
    (registry : Registry) (bearer : Option String)
    → authenticate registry bearer ≡ admin
    → (token : String) × (bearer ≡ some token) × (registry.admin ≡ some token)
unfolding authenticate
authenticate-admin registry none e = cc
authenticate-admin registry (some token) e = elim (Option-cases registry.admin) [
  | inl without ↦ ground (arith, e, without, tenant_of-not_admin token registry.tenants)
  | inr (a, k) ↦ (
    token,
    refl,
    ground (arith, e, k, eq_iff token a, tenant_of-not_admin token registry.tenants),
  )
]

May-Carries :
    (registry : Registry) (bearer : Option String) (who : Identity) (r : Request)
    → authenticate registry bearer ≡ who
    → May who r
    → Carries registry bearer r
May-Carries registry bearer (tenant t) (finalize owner _ _ _ _ _) e m =
    let (token, b, l) = authenticate-tenant registry bearer t e in ground (arith, b, l, m)
May-Carries registry bearer (tenant t) (delete_artifact owner _) e m =
    let (token, b, l) = authenticate-tenant registry bearer t e in ground (arith, b, l, m)
May-Carries registry bearer (tenant t) (gc _) e m = absurd m
May-Carries registry bearer admin (gc _) e m =
    let (token, b, l) = authenticate-admin registry bearer e in ground (arith, b, l)
May-Carries registry bearer admin (finalize _ _ _ _ _ _) e m = absurd m
May-Carries registry bearer admin (delete_artifact _ _) e m = absurd m
May-Carries registry bearer invalid r e m = absurd m

MayBegin-CarriesFor :
    (registry : Registry) (bearer : Option String) (d : Dispatched)
    → MayBegin (authenticate registry bearer) d
    → CarriesFor registry bearer d
MayBegin-CarriesFor registry bearer (replied _ _) m = tt
MayBegin-CarriesFor registry bearer (begun r) m =
    May-Carries registry bearer (authenticate registry bearer) r refl m

-- A request over HTTP begins a finalization or a deletion only for a tenant whose token in the registry
-- it carries, and a collection only with the token of the admin in the registry.
pub dispatch-CarriesFor :
    (env : Env) (registry : Registry) (r : HttpRequest) (s : Store)
    → CarriesFor registry r.bearer (dispatch env registry r s).0
dispatch-CarriesFor env registry r s =
    MayBegin-CarriesFor registry r.bearer (dispatch env registry r s).0
      (dispatch-MayBegin env s registry r)
