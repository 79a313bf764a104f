-- ===== src/Ledger/Replay.antt =====
-- mini-ledger/grader.py: `replay_verify`. Sequence numbers and amounts are natural numbers, and a missing
-- account, ref or key is one more text. A balance, which may be negative, is what was credited and
-- what was charged.
pub mod Counted
pub mod Available
pub mod Rising
use qwen_3_8_evals.Prelude.{
  ℕ, ◌+◌, ◌*◌, String, Bool, true, false, not, ◌&&◌, ◌||◌, Option, none, some, List, [], ◌∷◌,
  if◌then◌else◌, str_eq, leb, ltb, any, sum, map, select,
}

pub data Kind : Type 0 where
  account_open topup hold charge release other : Kind

pub record Entry : Type 0 where
  -- none: not an int
  pub seq : Option ℕ
  pub kind : Kind
  pub account_id : String
  pub ref : String
  pub amount : ℕ
  pub key : String

pub record Balance : Type 0 where
  pub credited : ℕ
  pub charged : ℕ

pub record Hold : Type 0 where
  pub ref : String
  pub account_id : String
  pub amount : ℕ

-- The counters that `replay_verify` raises.
pub record Violations : Type 0 where
  pub bad_seq : ℕ
  pub dup_topup_key : ℕ
  pub dup_hold : ℕ
  pub dup_terminal : ℕ
  pub terminal_before_hold : ℕ
  pub negative_available : ℕ

pub record Replay : Type 0 where
  pub balances : List (String × Balance)
  pub open_holds : List Hold
  pub seen_refs : List String
  pub seen_terms : List (String × Kind)
  pub topup_keys : List String
  pub last_seq : ℕ
  pub violations : Violations

abbrev pub is_text : String → String → Bool
is_text x y = str_eq y x

abbrev pub is_known : String → List String → Bool
is_known x seen = any (is_text x) seen

-- `balance[acct] = balance.get(acct, 0) + ...`
unfoldable pub change :
    String → (Balance → Balance) → List (String × Balance) → List (String × Balance)
change acct f [] = (acct, f (record { credited = 0; charged = 0 })) ∷ []
change acct f ((k, b) ∷ rest) =
    if str_eq k acct then (k, f b) ∷ rest else (k, b) ∷ change acct f rest

abbrev pub credit : ℕ → Balance → Balance
credit n b = record b { credited = b.credited + n }

abbrev pub debit : ℕ → Balance → Balance
debit n b = record b { charged = b.charged + n }

-- `open_holds[ref] = (acct, amt)`, which keeps one hold for a ref.
unfoldable pub drop_hold : String → List Hold → List Hold
drop_hold ref [] = []
drop_hold ref (h ∷ rest) =
    let more = drop_hold ref rest in if str_eq h.ref ref then more else h ∷ more

unfoldable pub find_hold : String → List Hold → Option Hold
find_hold ref [] = none
find_hold ref (h ∷ rest) = if str_eq h.ref ref then some h else find_hold ref rest

abbrev pub one_if : Bool → ℕ
one_if b = if b then 1 else 0

abbrev pub is_bad_seq : Option ℕ → ℕ → Bool
is_bad_seq none last = true
is_bad_seq (some n) last = leb n last

abbrev pub next_seq : Option ℕ → ℕ → ℕ
next_seq none last = last
next_seq (some n) last = n

-- The test of the sequence number.
abbrev pub check_seq : Entry → Replay → Replay
check_seq e r = record r {
  last_seq = next_seq e.seq r.last_seq;
  violations = record r.violations {
    bad_seq = r.violations.bad_seq + one_if (is_bad_seq e.seq r.last_seq);
  };
}

-- `if kind == "charge" and held`
abbrev pub settle : Kind → Option Hold → List (String × Balance) → List (String × Balance)
settle charge (some h) balances = change h.account_id (debit h.amount) balances
settle charge none balances = balances
settle account_open held balances = balances
settle topup held balances = balances
settle hold held balances = balances
settle release held balances = balances
settle other held balances = balances

-- The keys of `seen_terms`.
abbrev pub ended_refs : Replay → List String
ended_refs r = map (λ t. t.0) r.seen_terms

-- The branch of "charge" and "release".
abbrev pub terminate : Entry → Replay → Replay
terminate e r = record r {
  balances = settle e.kind (find_hold e.ref r.open_holds) r.balances;
  open_holds = drop_hold e.ref r.open_holds;
  seen_terms = (e.ref, e.kind) ∷ r.seen_terms;
  violations = record r.violations {
    dup_terminal = r.violations.dup_terminal + one_if (is_known e.ref (ended_refs r));
    terminal_before_hold =
        r.violations.terminal_before_hold
        + one_if (not (is_known e.ref (ended_refs r)) && not (is_known e.ref r.seen_refs));
  };
}

-- The branches on the kind.
abbrev pub apply_kind : Kind → Entry → Replay → Replay
apply_kind account_open e r = record r {
  balances = change e.account_id (credit e.amount) r.balances;
}
apply_kind topup e r = record r {
  balances = change e.account_id (credit e.amount) r.balances;
  topup_keys = e.key ∷ r.topup_keys;
  violations = record r.violations {
    dup_topup_key = r.violations.dup_topup_key + one_if (is_known e.key r.topup_keys);
  };
}
apply_kind hold e r = record r {
  open_holds =
      record { ref = e.ref; account_id = e.account_id; amount = e.amount }
      ∷ drop_hold e.ref r.open_holds;
  seen_refs = e.ref ∷ r.seen_refs;
  violations = record r.violations {
    dup_hold = r.violations.dup_hold + one_if (is_known e.ref r.seen_refs);
  };
}
apply_kind charge e r = terminate e r
apply_kind release e r = terminate e r
apply_kind other e r = r

-- What an account's open holds add up to.
abbrev pub held_by : String → List Hold → ℕ
held_by acct holds = sum (map (λ h. h.amount) (select (λ h. str_eq h.account_id acct) holds))

abbrev pub is_negative : List Hold → String × Balance → Bool
is_negative holds (acct, b) = ltb b.credited (b.charged + held_by acct holds)

-- The loop over the accounts: how many are negative, and the balances with 10**9 added to each of them.
unfoldable pub negatives : List Hold → List (String × Balance) → ℕ
negatives holds [] = 0
negatives holds (a ∷ rest) = one_if (is_negative holds a) + negatives holds rest

unfoldable pub propped : List Hold → List (String × Balance) → List (String × Balance)
propped holds [] = []
propped holds (a ∷ rest) =
    (a.0, (if is_negative holds a then credit 1000000000 a.1 else a.1)) ∷ propped holds rest

abbrev pub check_available : Replay → Replay
check_available r = record r {
  balances = propped r.open_holds r.balances;
  violations = record r.violations {
    negative_available = r.violations.negative_available + negatives r.open_holds r.balances;
  };
}

unfoldable pub replay_entry : Entry → Replay → Replay
replay_entry e r = check_available (apply_kind e.kind e (check_seq e r))

unfoldable pub replay_verify : List Entry → Replay → Replay
replay_verify [] r = r
replay_verify (e ∷ rest) r = replay_verify rest (replay_entry e r)

abbrev pub started : Replay
started = record {
  balances = [];
  open_holds = [];
  seen_refs = [];
  seen_terms = [];
  topup_keys = [];
  last_seq = 0;
  violations = record {
    bad_seq = 0;
    dup_topup_key = 0;
    dup_hold = 0;
    dup_terminal = 0;
    terminal_before_hold = 0;
    negative_available = 0;
  };
}
