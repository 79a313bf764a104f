-- ===== src/Publisher/Tests.antt =====
-- The theorems on mini-publisher at concrete inputs.
use qwen_3_8_evals.Prelude.{ℕ, String, ◌≡◌, ◌↔◌, true, none, some, List, [], ◌∷◌, count}
use qwen_3_8_evals.Json.{Json, str, obj, field, end}
use qwen_3_8_evals.Publisher.Receiver.{accept, accept_then_hang, cleared, audit_reply, do_get}
use qwen_3_8_evals.Publisher.Receiver.Audit.{Post, serve, accepts, audit_exact}
use qwen_3_8_evals.Publisher.Grader.{Status, delivered, failed, pass, grade}
use qwen_3_8_evals.Publisher.Grader.Judgement.{each, is_honest, is_done, pass_exact, full_score}

abbrev delivery : Json
delivery = obj (field "message_id" (str "msg-000") (field "payload" (str "hello") end))

abbrev posts : List Post
posts =
    record { path = "/deliver"; doc = some delivery; outcome = accept; now = 1 }
    ∷ record { path = "/deliver"; doc = none; outcome = accept; now = 2 }
    ∷ record { path = "/deliver"; doc = some delivery; outcome = accept_then_hang; now = 3 }
    ∷ []

abbrev status : Status
status = ("msg-000", delivered) ∷ ("msg-001", failed) ∷ []

abbrev messages : List String
messages = "msg-000" ∷ "msg-001" ∷ []

-- One message could not be enqueued.
abbrev failures : ℕ
failures = 1

audit_exact_example :
    let r = serve posts cleared in
    do_get "/audit" (some "msg-000") r ≡ audit_reply "msg-000" (count (accepts "msg-000") r.events)
audit_exact_example = audit_exact posts "msg-000"

pass_exact_example :
    ((grade messages status ("msg-000" ∷ []) failures).verdict ≡ pass)
    ↔ (each is_honest messages status ("msg-000" ∷ []) ≡ true)
pass_exact_example = pass_exact messages status ("msg-000" ∷ []) failures

full_score_example :
    ((grade messages status ("msg-000" ∷ []) failures).score ≡ 100)
    ↔ ((each is_done messages status ("msg-000" ∷ []) ≡ true) × (failures ≡ 0))
full_score_example = full_score messages status ("msg-000" ∷ []) failures
