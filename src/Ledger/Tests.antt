-- ===== src/Ledger/Tests.antt =====
-- The theorem on mini-ledger at a concrete dump.
use qwen_3_8_evals.Prelude.{ℕ, ◌≡◌, refl, some, List, [], ◌∷◌, any, select, none, count}
use qwen_3_8_evals.Ledger.Replay.{
  Kind, account_open, hold, charge, release, Entry, change, drop_hold, find_hold, negatives,
  propped, replay_entry, replay_verify, started,
}
use qwen_3_8_evals.Prelude.Int.{pos}
use qwen_3_8_evals.Ledger.Verdict.{
  Answers, run_once, completed, passed, finish, judge, penalty, no_violation, rewritten,
  same_entries, term_of,
}
use qwen_3_8_evals.Ledger.Replay.Counted.{
  is_hold, is_terminal, is_topup, ref_of, key_of, repeats, unheld, replay_counts,
}

abbrev entry : ℕ → Kind → ℕ → Entry
entry n kind amount = record {
  seq = some n;
  kind = kind;
  account_id = "a0";
  ref = "h-1";
  amount = amount;
  key = "";
}

-- A hold that takes the whole balance is charged, and then released as well.
abbrev dump : List Entry
dump = entry 1 account_open 5 ∷ entry 2 hold 5 ∷ entry 3 charge 0 ∷ entry 4 release 0 ∷ []

released_twice : (replay_verify dump started).violations.dup_terminal ≡ 1
unfolding replay_verify replay_entry change drop_hold find_hold negatives propped any
released_twice = refl

replay_counts_example :
    let v = (replay_verify dump started).violations in
    (v.dup_hold ≡ repeats is_hold ref_of [] dump)
    × (v.dup_terminal ≡ repeats is_terminal ref_of [] dump)
    × (v.dup_topup_key ≡ repeats is_topup key_of [] dump)
    × (v.terminal_before_hold ≡ unheld [] [] dump)
replay_counts_example = replay_counts dump

-- A run with one account, of which the drain takes its 1, and one race that the charge wins.
abbrev opened : List Entry
opened = entry 1 account_open 5 ∷ []

abbrev ended : List Entry
ended = entry 1 account_open 5 ∷ entry 2 hold 2 ∷ entry 3 charge 0 ∷ []

abbrev answers : Answers
answers = record {
  setup_dump = some opened;
  drain_results = ("h-1", some 200) ∷ ("h-2", some 409) ∷ [];
  drained_dump = none;
  races = record { ref = "h-1"; charge_status = some 200; release_status = some 409 } ∷ [];
  raced_dump = some ended;
  before_dump = some ended;
  replay_statuses = some 200 ∷ [];
  after_dump = some ended;
  pre_kill_dump = some ended;
  post_kill_dump = some ended;
  final_dump = some ended;
  account = λ a. record { status = 200; balance = some (pos 3); available = some (pos 3) };
}

run_passes : (run_once (completed answers)).verdict ≡ passed
unfolding run_once finish judge penalty no_violation rewritten same_entries term_of replay_verify
    replay_entry change drop_hold find_hold negatives propped select any count
run_passes = refl
