-- ===== src/Recur/Tests.antt =====
-- The theorems on mini-recur at a concrete scenario.
use qwen_3_8_evals.Prelude.{
  ◌+◌, ◌-◌, ◌*◌, ◌/◌, ◌%◌, ◌≤◌, ◌≡◌, true, false, [], ◌∷◌, All, count, if◌then◌else◌, ◌==◌,
}
use qwen_3_8_evals.Recur.Evaluate.{Zones, Scenario, set_time, candidates_of, evaluate}
use qwen_3_8_evals.Recur.Evaluate.Once.{candidate_at, occurrence_at, evaluate_once}
use qwen_3_8_evals.Recur.Evaluate.Window.{IsTimely, evaluate_window}

-- UTC alone, where no local time is skipped.
abbrev utc : Zones
utc = record {
  to_utc = λ zone d time. (d - 719163) * 86400 + time * 60;
  local_date = λ zone u. u / 86400 + 719163;
  local_time = λ zone u. u % 86400 / 60;
}

-- A rule for every Monday at 10:00, in two weeks of June 2026, edited on the first Monday at 15:00.
abbrev mondays : Scenario
mondays = record {
  timezone = "UTC";
  win_start = 1780272000;
  win_end = 1781481600;
  rules = record { id = "r1"; days = 0 ∷ []; time = 600 } ∷ [];
  edits = record { at_instant = 1780326000; kind = set_time "r1" 1200 } ∷ [];
}

evaluate_once_example :
    (count (occurrence_at true "r1" 739768) (evaluate utc mondays)
      ≡ (if count (candidate_at true "r1" 739768) (candidates_of utc mondays) == 0 then 0 else 1))
    × (count (occurrence_at false "r1" 739768) (evaluate utc mondays) ≤ 1)
evaluate_once_example = evaluate_once utc mondays "r1" 739768

evaluate_window_example :
    All (λ o. IsTimely utc mondays o o.status o.instant) (evaluate utc mondays)
evaluate_window_example = evaluate_window utc mondays
