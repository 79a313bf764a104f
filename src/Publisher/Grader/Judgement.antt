-- ===== src/Publisher/Grader/Judgement.antt =====
-- What the verdict and the score of mini-publisher/grader.py say of a submission.
use qwen_3_8_evals.Prelude.{
  ℕ, ◌+◌, String, ◌≡◌, Bool, true, false, ◌&&◌, Option, none, some, List, [], ◌∷◌, arith,
  if◌then◌else◌, str_eq, eq_iff, ◌==◌, count, ◌↔◌,
}
use qwen_3_8_evals.Publisher.Grader.{
  State, pending, delivering, uncertain, delivered, failed, invalid, Counters, Counts, Status,
  state_of, count_of, bump, accepted_counts, judge, judge_all, is_clean, penalty, pass, finish,
  started, grade,
}

-- How often a message is among the accepted deliveries.
abbrev pub times : String → List String → ℕ
times mid accepted = count (λ id. str_eq id mid) accepted

count_of-bump :
    (mid id : String) (d : Counts)
    → count_of mid (bump id d) ≡ (if str_eq id mid then 1 else 0) + count_of mid d
unfolding count_of bump
count_of-bump mid id [] = ground arith
count_of-bump mid id ((k, n) ∷ d) =
    ground (arith, count_of-bump mid id d, eq_iff k id, eq_iff k mid, eq_iff id mid)

count_of-accepted :
    (mid : String) (accepted : List String) (d : Counts)
    → count_of mid (accepted_counts accepted d) ≡ times mid accepted + count_of mid d
unfolding accepted_counts count
count_of-accepted mid [] d = omega arith
count_of-accepted mid (id ∷ rest) d =
    ground (arith, count_of-accepted mid rest (bump id d), count_of-bump mid id d)

-- Delivered exactly once and so reported, or never delivered and reported as failed.
abbrev pub is_honest : Option State → ℕ → Bool
is_honest none got = false
is_honest (some invalid) got = false
is_honest (some pending) got = false
is_honest (some delivering) got = false
is_honest (some uncertain) got = false
is_honest (some delivered) got = got == 1
is_honest (some failed) got = got == 0

abbrev pub is_done : Option State → ℕ → Bool
is_done none got = false
is_done (some invalid) got = false
is_done (some pending) got = false
is_done (some delivering) got = false
is_done (some uncertain) got = false
is_done (some delivered) got = got == 1
is_done (some failed) got = false

-- A test on every message, by its reported state and how often it was accepted.
unfoldable pub each : (Option State → ℕ → Bool) → List String → Status → List String → Bool
each f [] status accepted = true
each f (mid ∷ rest) status accepted =
    f (state_of mid status) (times mid accepted) && each f rest status accepted

judge-is_clean :
    (state : Option State) (got : ℕ) (c : Counters)
    → is_clean (judge state got c) ≡ (is_clean c && is_honest state got)
unfolding judge
judge-is_clean none got c = ground arith
judge-is_clean (some invalid) got c = ground arith
judge-is_clean (some pending) got c = ground arith
judge-is_clean (some delivering) got c = ground arith
judge-is_clean (some uncertain) got c = ground arith
judge-is_clean (some delivered) got c = ground arith
judge-is_clean (some failed) got c = ground arith

judge-penalty :
    (state : Option State) (got : ℕ) (c : Counters)
    → (penalty (judge state got c) == 0) ≡ (penalty c == 0 && is_done state got)
unfolding judge
judge-penalty none got c = ground arith
judge-penalty (some invalid) got c = ground arith
judge-penalty (some pending) got c = ground arith
judge-penalty (some delivering) got c = ground arith
judge-penalty (some uncertain) got c = ground arith
judge-penalty (some delivered) got c = ground arith
judge-penalty (some failed) got c = ground arith

judge_all-is_clean :
    (ids : List String) (status : Status) (accepted : List String) (c : Counters)
    → is_clean (judge_all ids status (accepted_counts accepted []) c)
      ≡ (is_clean c && each is_honest ids status accepted)
unfolding judge_all each count_of
judge_all-is_clean [] status accepted c = ground arith
judge_all-is_clean (mid ∷ ids) status accepted c =
    let got = count_of mid (accepted_counts accepted []) in
    ground (
      arith,
      count_of-accepted mid accepted [],
      judge_all-is_clean ids status accepted (judge (state_of mid status) got c),
      judge-is_clean (state_of mid status) got c,
    )

judge_all-penalty :
    (ids : List String) (status : Status) (accepted : List String) (c : Counters)
    → (penalty (judge_all ids status (accepted_counts accepted []) c) == 0)
      ≡ (penalty c == 0 && each is_done ids status accepted)
unfolding judge_all each count_of
judge_all-penalty [] status accepted c = ground arith
judge_all-penalty (mid ∷ ids) status accepted c =
    let got = count_of mid (accepted_counts accepted []) in
    ground (
      arith,
      count_of-accepted mid accepted [],
      judge_all-penalty ids status accepted (judge (state_of mid status) got c),
      judge-penalty (state_of mid status) got c,
    )

-- A run that is not aborted gets PASS exactly if each message either is reported delivered and
-- was accepted once, or is reported failed and was never accepted.
pub pass_exact :
    (ids : List String) (status : Status) (accepted : List String) (n : ℕ)
    → ((grade ids status accepted n).verdict ≡ pass) ↔ (each is_honest ids status accepted ≡ true)
unfolding grade finish
pass_exact ids status accepted n =
    ground (arith, judge_all-is_clean ids status accepted (started n))

-- A run that is not aborted gets the full score exactly if each message is reported delivered and
-- was accepted once, and no call to enqueue one failed for good.
pub full_score :
    (ids : List String) (status : Status) (accepted : List String) (n : ℕ)
    → ((grade ids status accepted n).score ≡ 100)
      ↔ ((each is_done ids status accepted ≡ true) × (n ≡ 0))
unfolding grade finish
full_score ids status accepted n =
    let p = judge_all-penalty ids status accepted (started n) in ground (arith, p)
