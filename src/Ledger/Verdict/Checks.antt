-- ===== src/Ledger/Verdict/Checks.antt =====
-- What each check of `run_once` in mini-ledger/grader.py says when it raises no counter.
use qwen_3_8_evals.Prelude.{
  ℕ, ◌+◌, String, ◌≡◌, refl, ap, ◌∙◌, ◌↔◌, ◌⊎◌, Bool, true, false, Option, none, some, List, [],
  ◌∷◌, ◌++◌, arith, All, count, any, eq_iff,
}
use qwen_3_8_evals.Prelude.Int.{ℤ, pos, negsuc}
use qwen_3_8_evals.Ledger.Replay.{
  Kind, account_open, topup, hold, charge, release, other, Entry, Balance, Replay, held_by,
}
use qwen_3_8_evals.Ledger.Verdict.{
  same_kind, same_entry, same_entries, keeps, rewritten, is_ok, Raced, AccountAnswer, is_hold_of,
  is_false_drain, term_of, is_false_race, less, answers_int, is_mismatch,
}

pub same_kind_iff : (j k : Kind) → (same_kind j k ≡ true) ↔ (j ≡ k)
same_kind_iff account_open k = ground arith
same_kind_iff topup k = ground arith
same_kind_iff hold k = ground arith
same_kind_iff charge k = ground arith
same_kind_iff release k = ground arith
same_kind_iff other k = ground arith

pub same_entry_iff : (x y : Entry) → (same_entry x y ≡ true) ↔ (x ≡ y)
same_entry_iff x y = ground (
  arith,
  same_kind_iff x.kind y.kind,
  eq_iff x.account_id y.account_id,
  eq_iff x.ref y.ref,
  eq_iff x.key y.key,
)

pub same_entries_iff : (xs ys : List Entry) → (same_entries xs ys ≡ true) ↔ (xs ≡ ys)
unfolding same_entries
same_entries_iff [] [] = ground arith
same_entries_iff [] (y ∷ ys) = ground arith
same_entries_iff (x ∷ xs) [] = ground arith
same_entries_iff (x ∷ xs) (y ∷ ys) = ground (arith, same_entry_iff x y, same_entries_iff xs ys)

-- The first list is a prefix of the second.
abbrev pub IsPrefix : List Entry → List Entry → Type 0
IsPrefix a b = (more : List Entry) × (b ≡ a ++ more)

pub keeps-IsPrefix : (a b : List Entry) → keeps a b ≡ true → IsPrefix a b
unfolding same_entries
keeps-IsPrefix [] b h = (b, refl)
keeps-IsPrefix (x ∷ a) [] h = cc
keeps-IsPrefix (x ∷ a) (y ∷ b) h = ground (arith, same_entry_iff y x, keeps-IsPrefix a b)

pub keeps-append : (a more : List Entry) → keeps a (a ++ more) ≡ true
unfolding same_entries
keeps-append [] more = refl
keeps-append (x ∷ a) more = ground (arith, same_entry_iff x x, keeps-append a more)

-- Each snapshot, newest first, has the one before it as a prefix.
abbrev pub IsAppendOnly : List (List Entry) → Type 0
IsAppendOnly [] = Unit
IsAppendOnly (b ∷ []) = Unit
IsAppendOnly (b ∷ a ∷ rest) = IsPrefix a b × IsAppendOnly (a ∷ rest)

pub keeps_iff : (a b : List Entry) → (keeps a b ≡ true) ↔ IsPrefix a b
keeps_iff a b = (keeps-IsPrefix a b, λ p. ap (keeps a) p.1 ∙ keeps-append a p.0)

pub rewritten_iff : (s : List (List Entry)) → (rewritten s ≡ 0) ↔ IsAppendOnly s
unfolding rewritten
rewritten_iff [] = ground arith
rewritten_iff (b ∷ []) = ground arith
rewritten_iff (b ∷ a ∷ rest) = ground (arith, keeps_iff a b, rewritten_iff (a ∷ rest))

module _ {A : Type 0} (p : A → Bool) (P : A → Type 0) (iff : (x : A) → (p x ≡ false) ↔ P x) where
  -- Nothing is counted when everything is as it should be.
  pub count_iff : (xs : List A) → (count p xs ≡ 0) ↔ All P xs
  unfolding count
  count_iff [] = ground arith
  count_iff (x ∷ xs) = ground (arith, iff x, count_iff xs)

-- A drain hold was answered with 200 exactly if the dump has it.
abbrev pub IsTrueDrain : List Entry → String × Option ℕ → Type 0
IsTrueDrain final (ref, status) = is_ok status ≡ any (is_hold_of ref) final

pub drain_iff :
    (final : List Entry) (d : String × Option ℕ)
    → (is_false_drain final d ≡ false) ↔ IsTrueDrain final d
drain_iff final (ref, status) = ground arith

-- Of a charge and a release that raced, one was answered with 200, and the ref ended by that one.
abbrev pub IsWonBy : Raced → Option Kind → Type 0
IsWonBy r none = ⊥
IsWonBy r (some kind) =
    ((is_ok r.charge_status ≡ true) × (is_ok r.release_status ≡ false) × (kind ≡ charge))
    ⊎ ((is_ok r.charge_status ≡ false) × (is_ok r.release_status ≡ true) × (kind ≡ release))

pub race_iff :
    (terms : List (String × Kind)) (r : Raced)
    → (is_false_race terms r ≡ false) ↔ IsWonBy r (term_of r.ref terms)
race_iff terms r = elim (term_of r.ref terms) [
  | none ↦ ground arith
  | some kind ↦ ground (arith, same_kind_iff kind charge, same_kind_iff kind release)
]

-- GET /account answers with the balance and the available credit of the dump.
abbrev pub IsAgreed : (String → AccountAnswer) → Replay → String × Balance → Type 0
IsAgreed account r (acct, b) =
    ((account acct).status ≡ 200)
    × ((account acct).balance ≡ some (less b.credited b.charged))
    × ((account acct).available ≡ some (less b.credited (b.charged + held_by acct r.open_holds)))

pub answers_int_iff : (o : Option ℤ) (n : ℤ) → (answers_int o n ≡ true) ↔ (o ≡ some n)
answers_int_iff none n = ground arith
answers_int_iff (some (pos m)) (pos n) = ground arith
answers_int_iff (some (pos m)) (negsuc n) = ground arith
answers_int_iff (some (negsuc m)) (pos n) = ground arith
answers_int_iff (some (negsuc m)) (negsuc n) = ground arith

pub mismatch_iff :
    (account : String → AccountAnswer) (r : Replay) (b : String × Balance)
    → (is_mismatch account r b ≡ false) ↔ IsAgreed account r b
mismatch_iff account r (acct, b) = ground (
  arith,
  answers_int_iff (account acct).balance (less b.credited b.charged),
  answers_int_iff (account acct).available
      (less b.credited (b.charged + held_by acct r.open_holds)),
)
