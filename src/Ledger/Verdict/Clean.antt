-- ===== src/Ledger/Verdict/Clean.antt =====
-- Which runs pass, by `run_once` and `finish` in mini-ledger/grader.py.
use qwen_3_8_evals.Prelude.{◌≤◌, ◌≡◌, true, List, [], length, All}
use qwen_3_8_evals.Ledger.Replay.{Entry, Replay, replay_verify, started}
use qwen_3_8_evals.Ledger.Replay.Counted.{
  is_hold, is_terminal, is_topup, ref_of, key_of, repeats, unheld,
}
use qwen_3_8_evals.Ledger.Replay.Available.{StaysCovered}
use qwen_3_8_evals.Ledger.Replay.Rising.{Rises}
use qwen_3_8_evals.Ledger.Verdict.{
  newest, is_ok, Answers, at_before, at_after, at_pre_kill, at_post_kill, at_end, term_of,
}
use qwen_3_8_evals.Ledger.Verdict.Checks.{IsPrefix, IsAppendOnly, IsTrueDrain, IsWonBy, IsAgreed}

-- What a run has to answer: snapshots that only grow, over the kill too; every replay accepted, without
-- an entry for it; answers to the racing holds, charges and releases, and to the queries of balances,
-- that the last dump bears out; and in that dump rising sequence numbers, no second hold, end or key,
-- no end without a hold, and never less on an account than its holds.
pub record IsClean (a : Answers) : Type 0 where
  append_only : IsAppendOnly (at_end a)
  durable : IsPrefix (newest (at_pre_kill a)) (newest (at_post_kill a))
  replays_append : length (newest (at_after a)) ≤ length (newest (at_before a))
  replays_accepted : All (λ s. is_ok s ≡ true) a.replay_statuses
  drain : All (IsTrueDrain (newest (at_end a))) a.drain_results
  races :
      All
        (λ r. IsWonBy r (term_of r.ref (replay_verify (newest (at_end a)) started).seen_terms))
        a.races
  balances :
      All
        (IsAgreed a.account (replay_verify (newest (at_end a)) started))
        (replay_verify (newest (at_end a)) started).balances
  rises : Rises 0 (newest (at_end a))
  holds : repeats is_hold ref_of [] (newest (at_end a)) ≡ 0
  ends : repeats is_terminal ref_of [] (newest (at_end a)) ≡ 0
  keys : repeats is_topup key_of [] (newest (at_end a)) ≡ 0
  ends_held : unheld [] [] (newest (at_end a)) ≡ 0
  covered : StaysCovered (newest (at_end a)) [] started

module _ (a : Answers) where
  abbrev final : List Entry
  final = newest (at_end a)

  abbrev replayed : Replay
  replayed = replay_verify final started
