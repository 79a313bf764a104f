-- ===== src/Ledger/Replay/Rising.antt =====
-- The sequence numbers of a dump, by `replay_verify` in mini-ledger/grader.py.
use qwen_3_8_evals.Prelude.{ℕ, ◌+◌, ◌<◌, ◌≡◌, ◌↔◌, false, Option, none, some, List, [], ◌∷◌, arith}
use qwen_3_8_evals.Ledger.Replay.{
  Entry, Replay, one_if, is_bad_seq, next_seq, replay_entry, replay_verify, started, check_seq,
  apply_kind, Kind, account_open, topup, hold, charge, release, other,
}

abbrev pub IsAfter : ℕ → Option ℕ → Type 0
IsAfter last none = ⊥
IsAfter last (some n) = last < n

-- Every sequence number is an integer, above the one before it.
abbrev pub Rises : ℕ → List Entry → Type 0
Rises last [] = Unit
Rises last (e ∷ es) = IsAfter last e.seq × Rises (next_seq e.seq last) es

unfoldable bad_seqs : ℕ → List Entry → ℕ
bad_seqs last [] = 0
bad_seqs last (e ∷ es) = one_if (is_bad_seq e.seq last) + bad_seqs (next_seq e.seq last) es

bad_seq_iff : (last : ℕ) (o : Option ℕ) → (is_bad_seq o last ≡ false) ↔ IsAfter last o
bad_seq_iff last none = ground arith
bad_seq_iff last (some n) = ground arith

bad_seqs_iff : (last : ℕ) (es : List Entry) → (bad_seqs last es ≡ 0) ↔ Rises last es
unfolding bad_seqs
bad_seqs_iff last [] = ground arith
bad_seqs_iff last (e ∷ es) =
    ground (arith, bad_seq_iff last e.seq, bad_seqs_iff (next_seq e.seq last) es)

apply_kind-seq :
    (k : Kind) (e : Entry) (r : Replay)
    → ((apply_kind k e r).violations.bad_seq ≡ r.violations.bad_seq)
      × ((apply_kind k e r).last_seq ≡ r.last_seq)
apply_kind-seq account_open e r = ground arith
apply_kind-seq topup e r = ground arith
apply_kind-seq hold e r = ground arith
apply_kind-seq charge e r = ground arith
apply_kind-seq release e r = ground arith
apply_kind-seq other e r = ground arith

replay_verify-bad_seqs :
    (es : List Entry) (r : Replay)
    → (replay_verify es r).violations.bad_seq ≡ r.violations.bad_seq + bad_seqs r.last_seq es
unfolding replay_verify bad_seqs replay_entry
replay_verify-bad_seqs [] r = omega arith
replay_verify-bad_seqs (e ∷ es) r =
    ground
      (arith, apply_kind-seq e.kind e (check_seq e r), replay_verify-bad_seqs es (replay_entry e r))

-- `replay_verify` finds no bad sequence number exactly if they rise.
pub replay-Rises :
    (es : List Entry) → ((replay_verify es started).violations.bad_seq ≡ 0) ↔ Rises 0 es
replay-Rises es = ground (arith, replay_verify-bad_seqs es started, bad_seqs_iff 0 es)
