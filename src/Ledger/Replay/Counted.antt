-- ===== src/Ledger/Replay/Counted.antt =====
-- What the counters of `replay_verify` in mini-ledger/grader.py count.
use qwen_3_8_evals.Prelude.{
  ℕ, ◌+◌, String, ◌≡◌, Bool, true, false, not, ◌&&◌, List, [], ◌∷◌, arith, if◌then◌else◌,
}
use qwen_3_8_evals.Ledger.Replay.{
  Kind, account_open, topup, hold, charge, release, other, Entry, Replay, is_known, one_if,
  ended_refs, replay_entry, replay_verify, started,
}

abbrev pub is_hold : Kind → Bool
is_hold hold = true
is_hold account_open = false
is_hold topup = false
is_hold charge = false
is_hold release = false
is_hold other = false

abbrev pub is_terminal : Kind → Bool
is_terminal charge = true
is_terminal release = true
is_terminal account_open = false
is_terminal topup = false
is_terminal hold = false
is_terminal other = false

abbrev pub is_topup : Kind → Bool
is_topup topup = true
is_topup account_open = false
is_topup hold = false
is_topup charge = false
is_topup release = false
is_topup other = false

-- The entries of some kinds whose text an earlier such entry, or `seen`, has.
unfoldable pub repeats : (Kind → Bool) → (Entry → String) → List String → List Entry → ℕ
repeats p f seen [] = 0
repeats p f seen (e ∷ rest) =
    let more = repeats p f (f e ∷ seen) rest in
    let same = repeats p f seen rest in
    if p e.kind then one_if (is_known (f e) seen) + more else same

-- The first charges and releases of a ref that no earlier entry, nor `held`, holds.
unfoldable pub unheld : List String → List String → List Entry → ℕ
unheld held ended [] = 0
unheld held ended (e ∷ rest) =
    let after_hold = unheld (e.ref ∷ held) ended rest in
    let after_end = unheld held (e.ref ∷ ended) rest in
    let same = unheld held ended rest in
    if is_hold e.kind
    then after_hold
    else if is_terminal e.kind
    then one_if (not (is_known e.ref ended) && not (is_known e.ref held)) + after_end
    else same

abbrev pub ref_of : Entry → String
ref_of e = e.ref

abbrev pub key_of : Entry → String
key_of e = e.key

-- What `replay_verify` has counted at the end, over what it had counted before.
record IsCounted (es : List Entry) (r t : Replay) : Type 0 where
  holds : t.violations.dup_hold ≡ r.violations.dup_hold + repeats is_hold ref_of r.seen_refs es
  terminals :
      t.violations.dup_terminal
      ≡ r.violations.dup_terminal + repeats is_terminal ref_of (ended_refs r) es
  keys :
      t.violations.dup_topup_key
      ≡ r.violations.dup_topup_key + repeats is_topup key_of r.topup_keys es
  early :
      t.violations.terminal_before_hold
      ≡ r.violations.terminal_before_hold + unheld r.seen_refs (ended_refs r) es

IsCounted-step :
    (e : Entry) (es : List Entry) (r t : Replay)
    → IsCounted es (replay_entry e r) t
    → IsCounted (e ∷ es) r t
unfolding replay_entry repeats unheld
IsCounted-step e es r t h = record {
  holds = ground (arith, h.holds);
  terminals = ground (arith, h.terminals);
  keys = ground (arith, h.keys);
  early = ground (arith, h.early);
}

replay_verify-IsCounted : (es : List Entry) (r : Replay) → IsCounted es r (replay_verify es r)
unfolding replay_verify repeats unheld
replay_verify-IsCounted [] r = record {
  holds = omega arith;
  terminals = omega arith;
  keys = omega arith;
  early = omega arith;
}
replay_verify-IsCounted (e ∷ es) r =
    IsCounted-step e es r _ (replay_verify-IsCounted es (replay_entry e r))

-- From its start, `replay_verify` counts the holds whose ref an earlier hold has, the charges and
-- releases whose ref an earlier one has, the topups whose key an earlier one has, and the first
-- charges or releases of a ref that no earlier entry holds.
pub replay_counts :
    (es : List Entry)
    → let v = (replay_verify es started).violations in
      (v.dup_hold ≡ repeats is_hold ref_of [] es)
      × (v.dup_terminal ≡ repeats is_terminal ref_of [] es)
      × (v.dup_topup_key ≡ repeats is_topup key_of [] es)
      × (v.terminal_before_hold ≡ unheld [] [] es)
replay_counts es =
    let c = replay_verify-IsCounted es started in
    (
      omega (arith, c.holds),
      omega (arith, c.terminals),
      omega (arith, c.keys),
      omega (arith, c.early),
    )
