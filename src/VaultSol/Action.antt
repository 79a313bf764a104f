-- ===== src/VaultSol/Action.antt =====
-- A method of `Store` in vaultdrop.py, which raises `ApiError`: the status, the message and whether the
-- connection closes.
use qwen_3_8_evals.Prelude.{ℕ, String, Bool, true, false}
use qwen_3_8_evals.VaultSol.Types.{Store}
use qwen_3_8_evals.Effect.{Outcome, Effect}

pub record ApiError : Type 0 where
  pub status : ℕ
  pub message : String
  pub close : Bool

abbrev pub Result : Type 0 → Type 0
Result A = Outcome ApiError A

abbrev pub Action : Type 0 → Type 0
Action A = Effect Store ApiError A

abbrev pub api_error : ℕ → String → ApiError
api_error status message = record { status = status; message = message; close = false }

-- `ApiError(status, message, close=True)`
abbrev pub closing_error : ℕ → String → ApiError
closing_error status message = record { status = status; message = message; close = true }
