-- ===== src/Inbox/Tests.antt =====
-- The theorems on mini-inbox at concrete inputs.
use qwen_3_8_evals.Prelude.{
  ◌-◌, ◌*◌, ◌≤◌, ◌≡◌, ◌↔◌, refl, true, false, not, none, some, List, [], ◌∷◌, arith, count,
}
use qwen_3_8_evals.Json.{str, obj, Fields, field, end}
use qwen_3_8_evals.Inbox.Provider.{
  Account, Truth, Provider, set_plan, is_recent, emit, set_account, take_item, check_done, waiting,
  failed, heappop, account_of,
}
use qwen_3_8_evals.Inbox.Provider.Rate.{Request, granted, rate_limited}
use qwen_3_8_evals.Inbox.Provider.Delivery.{
  Step, emitting, posting, taking, checking, delivering, step, run,
}
use qwen_3_8_evals.Inbox.Grader.{diff_states, pass, finish}
use qwen_3_8_evals.Inbox.Grader.Convergence.{has_converged, all_converged, converged_exact}

abbrev basic : Account
basic = record { plan = "basic"; status = "active" }

abbrev truth : Truth
truth = ("acc-0", basic) ∷ ("acc-1", basic) ∷ []

abbrev new_provider : Provider
new_provider = record {
  truth = truth;
  stats = record {
    events_emitted = 0;
    deliveries_ok = 0;
    delivery_failures = 0;
    subscription_requests = 0;
    rate_429s = 0;
    done = false;
  };
  touched = [];
  queue = [];
  queue_seq = 0;
  rate_window = [];
  outbox = [];
  dispatcher = waiting;
}

abbrev requests : List Request
requests =
    record { account_id = some "acc-0"; now = 10 }
    ∷ record { account_id = some "acc-1"; now = 20 }
    ∷ record { account_id = none; now = 30 }
    ∷ []

-- One event: a duplicate waits in the queue, and the first delivery has failed and is queued again.
abbrev steps : List Step
steps =
    emitting "acc-0" (set_plan "pro") 5 6 (some 12)
    ∷ posting
    ∷ taking 7
    ∷ posting
    ∷ delivering failed 11
    ∷ []

-- The dispatcher finds the queue empty between the emission of the last event and its `enqueue`.
done_before_delivery :
    (run 1
      (emitting "acc-0" (set_plan "pro") 5 6 none ∷ taking 7 ∷ checking ∷ [])
      (record { provider = new_provider; delivered = [] })).provider.stats.done
    ≡ true
unfolding run step emit set_account take_item check_done heappop account_of
done_before_delivery = refl

rate_limited_example : count (is_recent 60 40) (granted 2 60 requests new_provider) ≤ 2
rate_limited_example =
    rate_limited 2 60 40 requests new_provider refl (omega arith, (omega arith, (omega arith, tt)))

abbrev accounts : Fields
accounts = field "acc-0" (obj (field "plan" (str "pro") (field "status" (str "active") end))) end

converged_exact_example :
    let report = finish false (some (diff_states truth ("acc-0" ∷ []) accounts)) in
    let wrong = count (λ acct. not (has_converged truth accounts acct)) ("acc-0" ∷ []) in
    ((report.verdict ≡ pass) ↔ (all_converged truth accounts ("acc-0" ∷ []) ≡ true))
    × (report.score ≡ 100 - 10 * wrong)
converged_exact_example = converged_exact truth ("acc-0" ∷ []) accounts
