-- ===== src/Inbox/Grader.antt =====
-- mini-inbox/grader.py: `diff_states` and `finish`.
pub mod Convergence
use qwen_3_8_evals.Prelude.{
  ℕ, ◌-◌, ◌*◌, String, Bool, true, false, not, ◌&&◌, ◌||◌, Option, none, some, List, [], ◌∷◌,
  if◌then◌else◌, str_eq, length, ◌==◌,
}
use qwen_3_8_evals.Json.{Json, Fields, get, string_if, fields_of}
use qwen_3_8_evals.Inbox.Provider.{Account, Truth, account_of}

-- `got.get(key) == want`, for a text.
abbrev pub is_text : String → Option String → Bool
is_text want none = false
is_text want (some s) = str_eq s want

abbrev pub text_at : String → Fields → Option String
text_at key fs = string_if (λ _. true) (get key fs)

-- Whether what the consumer has is the account; it may be no object at all.
abbrev pub is_same : Account → Option Fields → Bool
is_same want none = false
is_same want (some got) =
    is_text want.plan (text_at "plan" got) && is_text want.status (text_at "status" got)

-- One touched account. Touched accounts are accounts of the truth, so `truth[acct]` is there.
abbrev pub is_matched : Option Account → Option Fields → Bool
is_matched none got = false
is_matched (some want) got = is_same want got

-- `accounts` is the dict that the consumer's state has under "accounts", empty if there is none.
unfoldable pub diff_states : Truth → List String → Fields → List String
diff_states truth [] accounts = []
diff_states truth (acct ∷ rest) accounts =
    let more = diff_states truth rest accounts in
    if is_matched (account_of acct truth) (fields_of (get acct accounts)) then more else acct ∷ more

pub data Verdict : Type 0 where
  pass fail aborted : Verdict

pub record Report : Type 0 where
  pub score : ℕ
  pub verdict : Verdict

-- `len(report["mismatched"] or [])`
abbrev pub misses : Option (List String) → ℕ
misses none = 0
misses (some accounts) = length accounts

-- `max(0, 100 - 10 * misses)` is the subtraction that stops at 0.
unfoldable pub finish : Bool → Option (List String) → Report
finish true mismatched = record { score = 0; verdict = aborted }
finish false mismatched =
    let n = misses mismatched in
    record { score = 100 - 10 * n; verdict = if n == 0 then pass else fail }
