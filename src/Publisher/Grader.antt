-- ===== src/Publisher/Grader.antt =====
-- mini-publisher/grader.py: the judgement at the end of `run_once`, and `finish`. The status that the
-- submission reports and the receiver's dump are arguments.
pub mod Judgement
use qwen_3_8_evals.Prelude.{
  ℕ, ◌+◌, ◌-◌, ◌*◌, String, Bool, true, false, not, ◌&&◌, ◌||◌, Option, none, some, List, [], ◌∷◌,
  if◌then◌else◌, str_eq, leb, ◌==◌,
}

-- A `state` of the status: one of VALID_STATES, or any other text.
pub data State : Type 0 where
  pending delivering uncertain delivered failed : State
  invalid : State

-- `counters`, in the order of PENALTIES.
pub record Counters : Type 0 where
  pub duplicates : ℕ
  pub false_delivered : ℕ
  pub false_failed : ℕ
  pub lost_records : ℕ
  pub stuck : ℕ
  pub gave_up : ℕ
  pub enqueue_failures : ℕ

-- A dict keyed by texts.
abbrev pub Counts : Type 0
Counts = List (String × ℕ)

abbrev pub Status : Type 0
Status = List (String × State)

unfoldable pub state_of : String → Status → Option State
state_of mid [] = none
state_of mid ((id, state) ∷ rest) = if str_eq id mid then some state else state_of mid rest

-- `accepted_counts.get(mid, 0)`
unfoldable pub count_of : String → Counts → ℕ
count_of mid [] = 0
count_of mid ((id, n) ∷ rest) = if str_eq id mid then n else count_of mid rest

-- `accepted_counts[id] = accepted_counts.get(id, 0) + 1`
unfoldable pub bump : String → Counts → Counts
bump mid [] = (mid, 1) ∷ []
bump mid ((id, n) ∷ rest) =
    let more = bump mid rest in if str_eq id mid then (id, n + 1) ∷ rest else (id, n) ∷ more

-- The loop over the message ids of `truth["accepted"]`.
unfoldable pub accepted_counts : List String → Counts → Counts
accepted_counts [] d = d
accepted_counts (mid ∷ rest) d = accepted_counts rest (bump mid d)

-- The chain of tests on the state.
abbrev pub judge_state : Option State → ℕ → Counters → Counters
judge_state none got c = record c { lost_records = c.lost_records + 1 }
judge_state (some invalid) got c = record c { lost_records = c.lost_records + 1 }
judge_state (some delivered) got c =
    if got == 0 then record c { false_delivered = c.false_delivered + 1 } else c
judge_state (some failed) got c =
    if leb 1 got
    then record c { false_failed = c.false_failed + 1 }
    else record c { gave_up = c.gave_up + 1 }
judge_state (some pending) got c = record c { stuck = c.stuck + 1 }
judge_state (some delivering) got c = record c { stuck = c.stuck + 1 }
judge_state (some uncertain) got c = record c { stuck = c.stuck + 1 }

abbrev pub judge_count : ℕ → Counters → Counters
judge_count got c = if leb 2 got then record c { duplicates = c.duplicates + 1 } else c

-- One turn of the loop over the ids.
unfoldable pub judge : Option State → ℕ → Counters → Counters
judge state got c = judge_state state got (judge_count got c)

unfoldable pub judge_all : List String → Status → Counts → Counters → Counters
unfolding judge
judge_all [] status counts c = c
judge_all (mid ∷ rest) status counts c =
    judge_all rest status counts (judge (state_of mid status) (count_of mid counts) c)

-- `sum(c[k] * PENALTIES[k] for k in PENALTIES)`
abbrev pub penalty : Counters → ℕ
penalty c =
    c.duplicates * 20
    + c.false_delivered * 10
    + c.false_failed * 10
    + c.lost_records * 10
    + c.stuck * 5
    + c.gave_up * 3
    + c.enqueue_failures * 5

-- `clean`
abbrev pub is_clean : Counters → Bool
is_clean c =
    c.duplicates == 0
    && c.false_delivered == 0
    && c.false_failed == 0
    && c.lost_records == 0
    && c.stuck == 0

pub data Verdict : Type 0 where
  pass fail aborted : Verdict

pub record Report : Type 0 where
  pub score : ℕ
  pub verdict : Verdict

-- `max(0, 100 - ...)` is the subtraction that stops at 0.
unfoldable pub finish : Bool → Counters → Report
finish true c = record { score = 0; verdict = aborted }
finish false c = record { score = 100 - penalty c; verdict = if is_clean c then pass else fail }

-- The counters before the messages are judged: only failures to enqueue have been counted.
abbrev pub started : ℕ → Counters
started n = record {
  duplicates = 0;
  false_delivered = 0;
  false_failed = 0;
  lost_records = 0;
  stuck = 0;
  gave_up = 0;
  enqueue_failures = n;
}

-- From the dump of the receiver to the report.
unfoldable pub grade : List String → Status → List String → ℕ → Report
unfolding judge_all accepted_counts finish
grade ids status accepted n =
    finish false (judge_all ids status (accepted_counts accepted []) (started n))
