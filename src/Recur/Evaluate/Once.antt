-- ===== src/Recur/Evaluate/Once.antt =====
-- What `evaluate` of mini-recur/make_goldens.py gives for a rule on a date.
use qwen_3_8_evals.Prelude.{
  ℕ, ◌+◌, ◌≤◌, String, ◌≡◌, refl, ap, ◌∙◌, Bool, true, false, not, ◌&&◌, ◌||◌, List, [], ◌∷◌, map,
  arith, if◌then◌else◌, eq_iff, ◌==◌, any, count, sort, insert_sorted,
}
use qwen_3_8_evals.Recur.Evaluate.{
  Scenario, Zones, OccurrenceStatus, scheduled, skipped_dst, Candidate, candidate_before, Seen,
  is_key, has_key, add_candidate, add_all, unseen, first_writers, Occurrence, occurrence,
  candidates_of, evaluate,
}

abbrev pub is_scheduled : OccurrenceStatus → Bool
is_scheduled scheduled = true
is_scheduled skipped_dst = false

-- A candidate of that rule, date and status.
abbrev pub candidate_at : Bool → String → ℕ → Candidate → Bool
candidate_at s id d c =
    is_key id d (c.rule_id, c.date) && (if is_scheduled c.status then s else not s)

abbrev pub occurrence_at : Bool → String → ℕ → Occurrence → Bool
occurrence_at s id d o =
    is_key id d (o.rule_id, o.local_date) && (if is_scheduled o.status then s else not s)

abbrev pub one_if : Bool → ℕ
one_if b = if b then 1 else 0

count-insert :
    (p : Candidate → Bool) (c : Candidate) (cs : List Candidate)
    → count p (insert_sorted candidate_before c cs) ≡ one_if (p c) + count p cs
unfolding count insert_sorted
count-insert p c [] = refl
count-insert p c (x ∷ cs) = ground (arith, count-insert p c cs)

count-sort :
    (p : Candidate → Bool) (cs : List Candidate) → count p (sort candidate_before cs) ≡ count p cs
unfolding count sort
count-sort p [] = refl
count-sort p (c ∷ cs) = ground (arith, count-insert p c (sort candidate_before cs), count-sort p cs)

-- The keys are those of the output.
record IsTracked (id : String) (d : ℕ) (seen : Seen) : Type 0 where
  scheduled_ones :
      count (candidate_at true id d) seen.out ≡ one_if (has_key id d seen.scheduled_keys)
  skipped_ones : count (candidate_at false id d) seen.out ≡ one_if (has_key id d seen.skip_keys)

add_candidate-IsTracked :
    (id : String) (d : ℕ) (c : Candidate) (seen : Seen)
    → IsTracked id d seen
    → IsTracked id d (add_candidate c seen)
unfolding add_candidate count any
add_candidate-IsTracked id d c seen h = record {
  scheduled_ones = ground (arith, h.scheduled_ones, eq_iff c.rule_id id);
  skipped_ones = ground (arith, h.skipped_ones, eq_iff c.rule_id id);
}

add_all-IsTracked :
    (id : String) (d : ℕ) (cs : List Candidate) (seen : Seen)
    → IsTracked id d seen
    → IsTracked id d (add_all cs seen)
unfolding add_all
add_all-IsTracked id d [] seen h = h
add_all-IsTracked id d (c ∷ cs) seen h =
    add_all-IsTracked id d cs _ (add_candidate-IsTracked id d c seen h)

-- A key is taken once one of its candidates is scheduled.
add_all-keys :
    (id : String) (d : ℕ) (cs : List Candidate) (seen : Seen)
    → has_key id d (add_all cs seen).scheduled_keys
      ≡ (has_key id d seen.scheduled_keys || not (count (candidate_at true id d) cs == 0))
unfolding add_all add_candidate count any
add_all-keys id d [] seen = ground arith
add_all-keys id d (c ∷ cs) seen =
    ground (arith, add_all-keys id d cs (add_candidate c seen), eq_iff c.rule_id id)

count-occurrence :
    (s : Bool) (id : String) (d : ℕ) (cs : List Candidate)
    → count (occurrence_at s id d) (map occurrence cs) ≡ count (candidate_at s id d) cs
unfolding count
count-occurrence s id d [] = refl
count-occurrence s id d (c ∷ cs) =
    ap (λ n. one_if (candidate_at s id d c) + n) (count-occurrence s id d cs)

-- In what a scenario gives, a rule has exactly one scheduled occurrence on a date for which some epoch
-- has a scheduled candidate, none on any other, and at most one skipped occurrence on a date.
pub evaluate_once :
    (zones : Zones) (s : Scenario) (id : String) (d : ℕ)
    → (count (occurrence_at true id d) (evaluate zones s)
        ≡ (if count (candidate_at true id d) (candidates_of zones s) == 0 then 0 else 1))
      × (count (occurrence_at false id d) (evaluate zones s) ≤ 1)
unfolding evaluate first_writers
evaluate_once zones s id d =
    let cs = candidates_of zones s in
    let seen = add_all (sort candidate_before cs) unseen in
    let kept =
      add_all-IsTracked id d (sort candidate_before cs) unseen
        (unfold any count in record { scheduled_ones = refl; skipped_ones = refl }) in
    let keys = add_all-keys id d (sort candidate_before cs) unseen in
    let same = count-sort (candidate_at true id d) cs in
    (
      count-occurrence true id d (sort candidate_before seen.out)
          ∙ count-sort (candidate_at true id d) seen.out
          ∙ kept.scheduled_ones
          ∙ unfold any in ground (arith, keys, same),
      ground (
        arith,
        kept.skipped_ones,
        count-occurrence false id d (sort candidate_before seen.out),
        count-sort (candidate_at false id d) seen.out,
      ),
    )
