-- ===== src/Vault27b/Routes/Separation.antt =====
-- Who may do what over vaultdrop/qwen-3-8-27b-v2/src/vaultdrop/httpd.py.
use qwen_3_8_evals.Prelude.{◌≡◌, String, [], arith}
use qwen_3_8_evals.Effect.{Outcome, ok, err, fault}
use qwen_3_8_evals.Vault27b.Types.{Store, ApiError}
use qwen_3_8_evals.Vault27b.Threads.{Request}
use qwen_3_8_evals.Vault27b.Http.{
  Auth, Caller, tenant, admin, check, Route, route_of, split_slash, HttpRequest, Env,
}
use qwen_3_8_evals.Vault27b.Routes.{
  Routed, replied, begun, tenant_route, admin_route, as_caller, route,
}

-- Who may begin a request: a tenant a finalization of its own, and the admin a collection.
abbrev pub May : Outcome ApiError Caller → Request → Type 0
May (ok (tenant t)) (Request.finalize owner _ _ _ _ _) = owner ≡ t
May (ok (tenant t)) Request.gc = ⊥
May (ok admin) (Request.finalize _ _ _ _ _ _) = ⊥
May (ok admin) Request.gc = Unit
May (err _) r = ⊥
May (fault _) r = ⊥

abbrev pub MayBegin : Outcome ApiError Caller → Routed → Type 0
MayBegin who (replied _ _) = Unit
MayBegin who (begun r) = May who r

module _ (env : Env) (s : Store) where
  tenant_route-MayBegin :
      (t : String) (p : Route) (r : HttpRequest)
      → MayBegin (ok (tenant t)) (tenant_route env t p r s).0
  unfolding tenant_route
  tenant_route-MayBegin t p r = ground arith

  admin_route-MayBegin :
      (method : String) (p : Route) → MayBegin (ok admin) (admin_route env method p s).0
  unfolding admin_route
  admin_route-MayBegin method p = ground arith

  as_caller-MayBegin :
      (who : Outcome ApiError Caller) (p : Route) (r : HttpRequest)
      → MayBegin who (as_caller env who p r s).0
  unfolding as_caller
  as_caller-MayBegin (err e) p r = tt
  as_caller-MayBegin (fault m) p r = tt
  as_caller-MayBegin (ok (tenant t)) p r = ground (arith, tenant_route-MayBegin t p r)
  as_caller-MayBegin (ok admin) p r = ground (arith, admin_route-MayBegin r.method p)

  -- A request over HTTP begins a finalization only under the tenant whose token it carries, and a
  -- collection only with the token of the admin.
  pub route-MayBegin :
      (auth : Auth) (r : HttpRequest) → MayBegin (check auth r.authorization) (route env auth r s).0
  unfolding route
  route-MayBegin auth r =
      ground (
        arith,
        as_caller-MayBegin (check auth r.authorization) (route_of (split_slash [] r.path)) r,
      )
