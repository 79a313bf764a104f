-- ===== src/Inbox/Grader/Convergence.antt =====
-- What the verdict of mini-inbox/grader.py says of the consumer's state.
use qwen_3_8_evals.Prelude.{
  ◌-◌, ◌*◌, String, ◌≡◌, refl, Bool, true, false, not, ◌&&◌, str_eq, Option, none, some, List, [],
  ◌∷◌, arith, if◌then◌else◌, length, ◌==◌, ◌↔◌, count,
}
use qwen_3_8_evals.Json.{
  Json, null, bool, num, float, str, arr, obj, Fields, get, string_if, fields_of,
}
use qwen_3_8_evals.Inbox.Provider.{Account, Truth, account_of}
use qwen_3_8_evals.Inbox.Grader.{is_text, is_matched, diff_states, pass, finish}

-- A JSON value is that text.
abbrev pub is_string : String → Json → Bool
is_string want (str s) = str_eq s want
is_string want null = false
is_string want (bool _) = false
is_string want (num _) = false
is_string want (float _) = false
is_string want (arr _) = false
is_string want (obj _) = false

-- A JSON value is an object with the plan and the status of the account.
abbrev pub agrees : Option Account → Json → Bool
agrees none got = false
agrees (some want) (obj got) =
    is_string want.plan (get "plan" got) && is_string want.status (get "status" got)
agrees (some want) null = false
agrees (some want) (bool _) = false
agrees (some want) (num _) = false
agrees (some want) (float _) = false
agrees (some want) (str _) = false
agrees (some want) (arr _) = false

is_text-is_string :
    (want : String) (v : Json) → is_text want (string_if (λ _. true) v) ≡ is_string want v
is_text-is_string want (str s) = refl
is_text-is_string want null = refl
is_text-is_string want (bool _) = refl
is_text-is_string want (num _) = refl
is_text-is_string want (float _) = refl
is_text-is_string want (arr _) = refl
is_text-is_string want (obj _) = refl

is_matched-agrees :
    (want : Option Account) (v : Json) → is_matched want (fields_of v) ≡ agrees want v
is_matched-agrees none v = refl
is_matched-agrees (some want) (obj got) =
    rw (
      is_text-is_string want.plan (get "plan" got),
      is_text-is_string want.status (get "status" got),
    )
is_matched-agrees (some want) null = refl
is_matched-agrees (some want) (bool _) = refl
is_matched-agrees (some want) (num _) = refl
is_matched-agrees (some want) (float _) = refl
is_matched-agrees (some want) (str _) = refl
is_matched-agrees (some want) (arr _) = refl

-- The consumer has the account as the provider has it.
abbrev pub has_converged : Truth → Fields → String → Bool
has_converged truth accounts acct = agrees (account_of acct truth) (get acct accounts)

-- Whether the consumer has every touched account right.
unfoldable pub all_converged : Truth → Fields → List String → Bool
all_converged truth accounts [] = true
all_converged truth accounts (acct ∷ rest) =
    if has_converged truth accounts acct then all_converged truth accounts rest else false

diff_states-length :
    (truth : Truth) (touched : List String) (accounts : Fields)
    → length (diff_states truth touched accounts)
      ≡ count (λ acct. not (has_converged truth accounts acct)) touched
unfolding diff_states count
diff_states-length truth [] accounts = refl
diff_states-length truth (acct ∷ rest) accounts = ground (
  arith,
  is_matched-agrees (account_of acct truth) (get acct accounts),
  diff_states-length truth rest accounts,
)

diff_states-all_converged :
    (truth : Truth) (touched : List String) (accounts : Fields)
    → (length (diff_states truth touched accounts) == 0) ≡ all_converged truth accounts touched
unfolding diff_states all_converged
diff_states-all_converged truth [] accounts = ground arith
diff_states-all_converged truth (acct ∷ rest) accounts = ground (
  arith,
  is_matched-agrees (account_of acct truth) (get acct accounts),
  diff_states-all_converged truth rest accounts,
)

-- A run that is not aborted and whose states were compared gets PASS exactly if the consumer has the
-- plan and the status of every touched account, and its score is 100 less 10 for each that it
-- has not, but not below 0.
pub converged_exact :
    (truth : Truth) (touched : List String) (accounts : Fields)
    → let report = finish false (some (diff_states truth touched accounts)) in
      let wrong = count (λ acct. not (has_converged truth accounts acct)) touched in
      ((report.verdict ≡ pass) ↔ (all_converged truth accounts touched ≡ true))
      × (report.score ≡ 100 - 10 * wrong)
unfolding finish
converged_exact truth touched accounts =
    let n = diff_states-length truth touched accounts in
    let e = diff_states-all_converged truth touched accounts in
    (ground (arith, e), ground (arith, n))
