-- ===== src/VaultSol/Http/Access.antt =====
-- Who may do what through the handler of vaultdrop.py.
use qwen_3_8_evals.Prelude.{String, ◌≡◌, ◌≢◌, ◌⊎◌, Option, none, some, true, false, All}
use qwen_3_8_evals.VaultSol.Types.{Store}
use qwen_3_8_evals.VaultSol.Action.{Result}
use qwen_3_8_evals.VaultSol.Auth.{Auth}
use qwen_3_8_evals.VaultSol.Http.Dispatch.{healthy, Response, respond, Env, error, answer}

-- The answers that a request gets whose token is nobody's.
abbrev pub IsRefusal : Response → Type 0
IsRefusal x =
    (x ≡ respond 200 healthy)
    ⊎ (x ≡ record { status = 401; body = error "unauthorized"; close = true })
    ⊎ (x ≡ record { status = 403; body = error "admin authorization required"; close = true })
    ⊎ (x ≡ record { status = 404; body = error "not found"; close = false })

-- A token that no tenant has, and not the admin; a request without a token reads as the empty text to the
-- test for tenants.
abbrev pub IsNobody : Auth → Option String → Type 0
IsNobody auth none = All (λ t. t.0 ≢ "") auth.tenant_tokens
IsNobody auth (some token) = All (λ t. t.0 ≢ token) auth.tenant_tokens × (auth.admin_token ≢ token)

module _ (env : Env) (auth : Auth) where
  -- What `_handle` makes of a refusal.
  abbrev Refuses : Result Response × Store → Store → Type 0
  Refuses (r, t) s = IsRefusal (answer env auth r) × (t ≡ s)
