-- ===== src/Ledger/Verdict.antt =====
-- mini-ledger/grader.py: `run_once` over what the submission answers, and `finish`. Two entries compare
-- by the six fields that `replay_verify` reads.
pub mod Checks
pub mod Clean
use qwen_3_8_evals.Prelude.{
  ℕ, ◌+◌, ◌-◌, ◌*◌, String, Bool, true, false, not, ◌&&◌, ◌||◌, Option, none, some, List, [], ◌∷◌,
  length, take, if◌then◌else◌, str_eq, leb, ltb, ◌==◌, any, count, sum, map,
}
use qwen_3_8_evals.Prelude.Int.{ℤ, pos, negsuc}
use qwen_3_8_evals.Ledger.Replay.{
  Kind, account_open, topup, hold, charge, release, other, Entry, Balance, Replay, Violations,
  one_if, held_by, replay_verify, started, is_known,
}

-- The counters that `run_once` raises itself, and those of `replay_verify`.
pub record Counters : Type 0 where
  pub append_only : ℕ
  pub durability_loss : ℕ
  pub replay_appended : ℕ
  pub replay_rejected : ℕ
  pub false_claim : ℕ
  pub balance_mismatch : ℕ
  pub replayed : Violations

-- `sum(c[k] * PENALTIES[k] for k in c)`
unfoldable pub penalty : Counters → ℕ
penalty c =
    c.replayed.negative_available * 20
    + c.replayed.dup_hold * 20
    + c.replayed.dup_terminal * 20
    + c.replayed.terminal_before_hold * 20
    + c.append_only * 20
    + c.durability_loss * 20
    + c.replay_appended * 10
    + c.replay_rejected * 5
    + c.false_claim * 10
    + c.balance_mismatch * 10
    + c.replayed.bad_seq * 10
    + c.replayed.dup_topup_key * 10

-- `all(v == 0 for v in c.values())`
unfoldable pub no_violation : Counters → Bool
no_violation c =
    c.replayed.negative_available == 0
    && c.replayed.dup_hold == 0
    && c.replayed.dup_terminal == 0
    && c.replayed.terminal_before_hold == 0
    && c.append_only == 0
    && c.durability_loss == 0
    && c.replay_appended == 0
    && c.replay_rejected == 0
    && c.false_claim == 0
    && c.balance_mismatch == 0
    && c.replayed.bad_seq == 0
    && c.replayed.dup_topup_key == 0

pub data GradeVerdict : Type 0 where
  passed failed aborted : GradeVerdict

pub data Abort : Type 0 where
  no_executable not_up not_restarted : Abort

pub record Report : Type 0 where
  pub counters : Counters
  pub abort : Option Abort
  pub score : ℕ
  pub verdict : GradeVerdict

-- `finish`, given whether the run was aborted.
unfoldable pub finish : Option Abort → Counters → Report
unfolding penalty no_violation
finish (some a) c = record { counters = c; abort = some a; score = 0; verdict = aborted }
finish none c = record {
  counters = c;
  abort = none;
  score = 100 - penalty c;
  verdict = if no_violation c then passed else failed;
}

abbrev pub same_kind : Kind → Kind → Bool
same_kind account_open k = elim k [ account_open ↦ true | _ ↦ false ]
same_kind topup k = elim k [ topup ↦ true | _ ↦ false ]
same_kind hold k = elim k [ hold ↦ true | _ ↦ false ]
same_kind charge k = elim k [ charge ↦ true | _ ↦ false ]
same_kind release k = elim k [ release ↦ true | _ ↦ false ]
same_kind other k = elim k [ other ↦ true | _ ↦ false ]

abbrev pub same_seq : Option ℕ → Option ℕ → Bool
same_seq none none = true
same_seq none (some n) = false
same_seq (some m) none = false
same_seq (some m) (some n) = m == n

abbrev pub same_entry : Entry → Entry → Bool
same_entry x y =
    same_seq x.seq y.seq
    && same_kind x.kind y.kind
    && str_eq x.account_id y.account_id
    && str_eq x.ref y.ref
    && x.amount == y.amount
    && str_eq x.key y.key

unfoldable pub same_entries : List Entry → List Entry → Bool
same_entries [] [] = true
same_entries [] (y ∷ ys) = false
same_entries (x ∷ xs) [] = false
same_entries (x ∷ xs) (y ∷ ys) = same_entry x y && same_entries xs ys

-- `b[: len(a)] == a`
abbrev pub keeps : List Entry → List Entry → Bool
keeps a b = same_entries (take (length a) b) a

-- `snap`: an answer other than 200 (none) leaves the list as it is.
abbrev pub snap : Option (List Entry) → List (List Entry) → List (List Entry)
snap none snapshots = snapshots
snap (some entries) snapshots = entries ∷ snapshots

-- What `snap` returns: `snapshots[-1] if snapshots else []`, the list being newest first.
abbrev pub newest : List (List Entry) → List Entry
newest [] = []
newest (s ∷ rest) = s

-- The loop over adjacent snapshots.
unfoldable pub rewritten : List (List Entry) → ℕ
rewritten [] = 0
rewritten (b ∷ []) = 0
rewritten (b ∷ a ∷ rest) = one_if (not (keeps a b)) + rewritten (a ∷ rest)

-- `r and r[0] == 200`, where none is a request that no answer came for.
abbrev pub is_ok : Option ℕ → Bool
is_ok none = false
is_ok (some status) = status == 200

-- A raced pair: its ref, and the statuses of the charge and of the release.
pub record Raced : Type 0 where
  pub ref : String
  pub charge_status : Option ℕ
  pub release_status : Option ℕ

-- What GET /account says of an account.
pub record AccountAnswer : Type 0 where
  pub status : ℕ
  pub balance : Option ℤ
  pub available : Option ℤ

-- What the submission answers in a run that is not aborted, in the order of the requests that count. A
-- dump is none when its status is not 200.
pub record Answers : Type 0 where
  pub setup_dump : Option (List Entry)
  pub drain_results : List (String × Option ℕ)
  pub drained_dump : Option (List Entry)
  pub races : List Raced
  pub raced_dump : Option (List Entry)
  pub before_dump : Option (List Entry)
  pub replay_statuses : List (Option ℕ)
  pub after_dump : Option (List Entry)
  pub pre_kill_dump : Option (List Entry)
  pub post_kill_dump : Option (List Entry)
  pub final_dump : Option (List Entry)
  pub account : String → AccountAnswer

-- `snapshots` before and after the storm of replays, before and after the kill, and at the end.
abbrev pub at_before : Answers → List (List Entry)
at_before a = snap a.before_dump (snap a.raced_dump (snap a.drained_dump (snap a.setup_dump [])))

abbrev pub at_after : Answers → List (List Entry)
at_after a = snap a.after_dump (at_before a)

abbrev pub at_pre_kill : Answers → List (List Entry)
at_pre_kill a = snap a.pre_kill_dump (at_after a)

abbrev pub at_post_kill : Answers → List (List Entry)
at_post_kill a = snap a.post_kill_dump (at_pre_kill a)

abbrev pub at_end : Answers → List (List Entry)
at_end a = snap a.final_dump (at_post_kill a)

-- The storm of replays: `after - before` if it is positive.
abbrev pub appended : Answers → ℕ
appended a =
    let before = length (newest (at_before a)) in
    let after = length (newest (at_after a)) in if ltb before after then after - before else 0

abbrev pub is_hold_of : String → Entry → Bool
is_hold_of ref e = same_kind e.kind hold && str_eq e.ref ref

-- A drain answer of 200 without its hold, or a hold without a 200.
abbrev pub is_false_drain : List Entry → String × Option ℕ → Bool
is_false_drain final (ref, status) =
    if is_ok status then not (any (is_hold_of ref) final) else any (is_hold_of ref) final

-- `seen_terms[ref]`: the last kind that was recorded.
unfoldable pub term_of : String → List (String × Kind) → Option Kind
term_of ref [] = none
term_of ref ((k, kind) ∷ rest) = if str_eq k ref then some kind else term_of ref rest

-- `winners != terms or len(winners) != 1`
abbrev pub is_false_race : List (String × Kind) → Raced → Bool
is_false_race terms r =
    let charged = is_ok r.charge_status in
    let released = is_ok r.release_status in
    elim (term_of r.ref terms) [
      | none ↦ true
      | some kind ↦ not (
          (charged && not released && same_kind kind charge)
          || (not charged && released && same_kind kind release))
    ]

-- The difference of two natural numbers.
abbrev pub less : ℕ → ℕ → ℤ
less m n = if leb n m then pos (m - n) else negsuc (n - m - 1)

abbrev pub answers_int : Option ℤ → ℤ → Bool
answers_int none n = false
answers_int (some (pos m)) n = elim n [ pos k ↦ m == k | negsuc k ↦ false ]
answers_int (some (negsuc m)) n = elim n [ pos k ↦ false | negsuc k ↦ m == k ]

-- The balance and the available credit that `replay_verify` returns for an account, against the answer.
abbrev pub is_mismatch : (String → AccountAnswer) → Replay → String × Balance → Bool
is_mismatch account r (acct, b) =
    let answer = account acct in
    not (answer.status == 200)
    || not (answers_int answer.balance (less b.credited b.charged))
    || not (answers_int answer.available (less b.credited (b.charged + held_by acct r.open_holds)))

-- The counters at the end of a run that is not aborted.
unfoldable pub judge : Answers → Counters
unfolding rewritten term_of
judge a =
    let final = newest (at_end a) in
    let r = replay_verify final started in
    record {
      append_only = rewritten (at_end a);
      durability_loss = one_if (not (keeps (newest (at_pre_kill a)) (newest (at_post_kill a))));
      replay_appended = appended a;
      replay_rejected = count (λ s. not (is_ok s)) a.replay_statuses;
      false_claim =
          count (is_false_drain final) a.drain_results + count (is_false_race r.seen_terms) a.races;
      balance_mismatch = count (is_mismatch a.account r) r.balances;
      replayed = r.violations;
    }

abbrev pub zeroes : Counters
zeroes = record {
  append_only = 0;
  durability_loss = 0;
  replay_appended = 0;
  replay_rejected = 0;
  false_claim = 0;
  balance_mismatch = 0;
  replayed = started.violations;
}

-- How far a run comes.
pub data Course : Type 0 where
  without_binary server_down : Course
  server_lost completed : Answers → Course

-- `run_once`. When the server does not come up again, the counters of the storm stay.
unfoldable pub run_once : Course → Report
unfolding judge finish
run_once without_binary = finish (some no_executable) zeroes
run_once server_down = finish (some not_up) zeroes
run_once (server_lost a) = finish (some not_restarted) (record zeroes {
  replay_appended = appended a;
  replay_rejected = count (λ s. not (is_ok s)) a.replay_statuses;
})
run_once (completed a) = finish none (judge a)
