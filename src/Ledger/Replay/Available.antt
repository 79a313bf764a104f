-- ===== src/Ledger/Replay/Available.antt =====
-- What is available on the accounts of a dump, by `replay_verify` in mini-ledger/grader.py.
use qwen_3_8_evals.Prelude.{
  ℕ, ◌+◌, ◌≤◌, String, ◌≡◌, ◌↔◌, refl, List, [], ◌∷◌, arith, All, str_eq, if◌then◌else◌, select,
  delete,
}
use mathlib.Core.Path.{subst}
use qwen_3_8_evals.Ledger.Replay.{
  Entry, Balance, Hold, Replay, check_seq, Kind, account_open, topup, hold, charge, release, other,
  apply_kind, drop_hold, held_by, negatives, replay_entry, replay_verify,
}

-- What an account owes to the holds that are open on it.
unfoldable pub owed : String → List Hold → ℕ
owed acct [] = 0
owed acct (h ∷ rest) =
    let more = owed acct rest in if str_eq h.account_id acct then h.amount + more else more

held_by-owed : (acct : String) (holds : List Hold) → held_by acct holds ≡ owed acct holds
unfolding owed select
held_by-owed acct [] = refl
held_by-owed acct (h ∷ rest) = ground (arith, held_by-owed acct rest)

-- No account has less on it than its open holds.
abbrev pub IsCovered : List Hold → List (String × Balance) → Type 0
IsCovered holds accounts = All (λ a. a.1.charged + owed a.0 holds ≤ a.1.credited) accounts

negatives_iff :
    (holds : List Hold) (accounts : List (String × Balance))
    → (negatives holds accounts ≡ 0) ↔ IsCovered holds accounts
unfolding negatives
negatives_iff holds [] = ground arith
negatives_iff holds ((acct, b) ∷ rest) =
    ground (arith, held_by-owed acct holds, negatives_iff holds rest)

-- The replay when an entry is taken in, before its accounts are looked at.
abbrev pub taken : Entry → Replay → Replay
taken e r = apply_kind e.kind e (check_seq e r)

-- The holds that are open after an entry: a hold replaces one of its ref, and a charge or a release ends
-- that of its ref.
abbrev pub opened : Kind → Entry → List Hold → List Hold
opened hold e holds =
    record { ref = e.ref; account_id = e.account_id; amount = e.amount }
    ∷ delete (λ h. str_eq h.ref e.ref) holds
opened charge e holds = delete (λ h. str_eq h.ref e.ref) holds
opened release e holds = delete (λ h. str_eq h.ref e.ref) holds
opened account_open e holds = holds
opened topup e holds = holds
opened other e holds = holds

drop_hold-delete :
    (ref : String) (holds : List Hold) → drop_hold ref holds ≡ delete (λ h. str_eq h.ref ref) holds
unfolding drop_hold delete
drop_hold-delete ref [] = refl
drop_hold-delete ref (h ∷ rest) = ground (arith, drop_hold-delete ref rest)

apply_kind-opened :
    (k : Kind) (e : Entry) (r : Replay) → (apply_kind k e r).open_holds ≡ opened k e r.open_holds
apply_kind-opened hold e r = rw (drop_hold-delete e.ref r.open_holds) refl
apply_kind-opened charge e r = drop_hold-delete e.ref r.open_holds
apply_kind-opened release e r = drop_hold-delete e.ref r.open_holds
apply_kind-opened account_open e r = refl
apply_kind-opened topup e r = refl
apply_kind-opened other e r = refl

replay_entry-opened :
    (e : Entry) (r : Replay) → (replay_entry e r).open_holds ≡ opened e.kind e r.open_holds
unfolding replay_entry
replay_entry-opened e r = apply_kind-opened e.kind e (check_seq e r)

taken_iff :
    (e : Entry) (r : Replay)
    → (negatives (taken e r).open_holds (taken e r).balances ≡ 0)
      ↔ IsCovered (opened e.kind e r.open_holds) (taken e r).balances
taken_iff e r =
    subst
      (λ holds.
        (negatives (taken e r).open_holds (taken e r).balances ≡ 0)
        ↔ IsCovered holds (taken e r).balances)
      (apply_kind-opened e.kind e (check_seq e r))
      (negatives_iff (taken e r).open_holds (taken e r).balances)

-- After each entry no account has less on it than the holds that are open then.
unfoldable pub StaysCovered : List Entry → List Hold → Replay → Type 0
StaysCovered [] holds r = Unit
StaysCovered (e ∷ rest) holds r =
    IsCovered (opened e.kind e holds) (taken e r).balances
    × StaysCovered rest (opened e.kind e holds) (replay_entry e r)

-- The number of negative accounts that were counted.
abbrev pub counted : Replay → ℕ
counted r = r.violations.negative_available

apply_kind-counted : (k : Kind) (e : Entry) (r : Replay) → counted (apply_kind k e r) ≡ counted r
apply_kind-counted account_open e r = refl
apply_kind-counted topup e r = refl
apply_kind-counted hold e r = refl
apply_kind-counted charge e r = refl
apply_kind-counted release e r = refl
apply_kind-counted other e r = refl

replay_entry-counted :
    (e : Entry) (r : Replay)
    → counted (replay_entry e r) ≡ counted r + negatives (taken e r).open_holds (taken e r).balances
unfolding replay_entry
replay_entry-counted e r = omega (arith, apply_kind-counted e.kind e (check_seq e r))

replay_verify-counted : (es : List Entry) (r : Replay) → counted r ≤ counted (replay_verify es r)
unfolding replay_verify
replay_verify-counted [] r = omega arith
replay_verify-counted (e ∷ es) r =
    omega (arith, replay_entry-counted e r, replay_verify-counted es (replay_entry e r))

module _ (n : ℕ) (es : List Entry) where
  StaysCovered-opened :
      (e : Entry) (r : Replay)
      → (n ≡ counted (replay_entry e r))
        ↔ StaysCovered es (replay_entry e r).open_holds (replay_entry e r)
      → (n ≡ counted (replay_entry e r))
        ↔ StaysCovered es (opened e.kind e r.open_holds) (replay_entry e r)
  StaysCovered-opened e r later =
      subst (λ holds. (n ≡ counted (replay_entry e r)) ↔ StaysCovered es holds (replay_entry e r))
        (replay_entry-opened e r) later

-- No more negative accounts are counted exactly if no entry leaves one.
pub covered_iff :
    (es : List Entry) (r : Replay)
    → (counted (replay_verify es r) ≡ counted r) ↔ StaysCovered es r.open_holds r
unfolding replay_verify StaysCovered
covered_iff [] r = ((λ e. tt), (λ c. refl))
covered_iff (e ∷ es) r =
    let n = replay_entry-counted e r in
    let m = replay_verify-counted es (replay_entry e r) in
    let here = taken_iff e r in
    let later =
      StaysCovered-opened (counted (replay_verify es (replay_entry e r))) es e r
        (covered_iff es (replay_entry e r)) in
    (
      (λ h. (here.0 (omega (arith, h, n, m)), later.0 (omega (arith, h, n, m)))),
      (λ c. omega (arith, here.1 c.0, later.1 c.1, n)),
    )
