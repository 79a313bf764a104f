-- ===== src/Effect.antt =====
-- Methods that change a state and return or raise: a function from the state to a result and the
-- state that it leaves, which stays as it is when the method raises. `E` is what the program raises
-- on purpose; any other exception is a fault.
pub mod Keeps
use qwen_3_8_evals.Prelude.{String, Bool, true, false, Option, none, some, ◌≡◌, refl, ◌⊎◌, inl, inr}

pub data Outcome (E A : Type 0) : Type 0 where
  ok : A → Outcome E A
  err : E → Outcome E A
  fault : String → Outcome E A

abbrev pub Effect : Type 0 → Type 0 → Type 0 → Type 0
Effect S E A = S → Outcome E A × S

module _ {S E A : Type 0} where
  unfoldable pub pure : A → Effect S E A
  pure a s = (ok a, s)

  unfoldable pub raise : E → Effect S E A
  raise e s = (err e, s)

  unfoldable pub raise_fault : String → Effect S E A
  raise_fault m s = (fault m, s)

  unfoldable pub gets : (S → A) → Effect S E A
  gets f s = (ok (f s), s)

  unfoldable pub lift : Outcome E A → Effect S E A
  lift r s = (r, s)

  -- `if row is None: raise ...`
  unfoldable pub or_raise : Option A → E → Effect S E A
  or_raise none e s = (err e, s)
  or_raise (some a) e s = (ok a, s)

  unfoldable pub or_fault : Option A → String → Effect S E A
  or_fault none m s = (fault m, s)
  or_fault (some a) m s = (ok a, s)

module _ {S E : Type 0} where
  unfoldable pub raise_if : Bool → E → Effect S E (Unit {0})
  raise_if true e s = (err e, s)
  raise_if false e s = (ok tt, s)

  unfoldable pub fault_if : Bool → String → Effect S E (Unit {0})
  fault_if true m s = (fault m, s)
  fault_if false m s = (ok tt, s)

  unfoldable pub modify : (S → S) → Effect S E (Unit {0})
  modify f s = (ok tt, f s)

abbrev pub continue : {S E A B : Type 0} → Outcome E A → (A → Effect S E B) → Effect S E B
continue (ok a) f s = f a s
continue (err e) f s = (err e, s)
continue (fault m) f s = (fault m, s)

infixl 5 ◌>>=◌ ◌>>◌
-- To open this is to open the primitive actions too.
unfoldable pub ◌>>=◌ : {S E A B : Type 0} → Effect S E A → (A → Effect S E B) → Effect S E B
unfolding pure raise raise_fault gets lift or_raise or_fault raise_if fault_if modify
◌>>=◌ m f s = continue (m s).0 f (m s).1

abbrev pub ◌>>◌ : {S E A B : Type 0} → Effect S E A → Effect S E B → Effect S E B
m >> k = m >>= λ _. k

-- `try: ... finally: ...`
unfoldable pub finally : {S E A : Type 0} → Effect S E A → (S → S) → Effect S E A
finally m f s = ((m s).0, f (m s).1)

abbrev pub recovered : {S E A : Type 0} → Outcome E A → (S → S) → S → S
recovered (ok _) f s = s
recovered (err _) f s = s
recovered (fault _) f s = f s

-- An exception that is not raised on purpose is passed on after `f`.
unfoldable pub on_fault : {S E A : Type 0} → Effect S E A → (S → S) → Effect S E A
on_fault m f s = ((m s).0, recovered (m s).0 f (m s).1)

abbrev pub committed : {S E A : Type 0} → Outcome E A → S → S → S
committed (ok _) before after = after
committed (err _) before after = before
committed (fault _) before after = before

-- A transaction that is rolled back by any exception.
unfoldable pub atomically : {S E A : Type 0} → Effect S E A → Effect S E A
atomically m s = ((m s).0, committed (m s).0 s (m s).1)

-- A method that raises skips what follows.
pub Outcome-cases :
    {S E A B : Type 0} (r : Outcome E A) (f : A → Effect S E B)
    → ((a : A) × (r ≡ ok a)) ⊎ ((s : S) → (continue r f s).1 ≡ s)
Outcome-cases (ok a) f = inl (a, refl)
Outcome-cases (err e) f = inr (λ s. refl)
Outcome-cases (fault m) f = inr (λ s. refl)

-- Whether a call returned normally.
abbrev pub is_ok : {E A : Type 0} → Outcome E A → Bool
is_ok (ok _) = true
is_ok (err _) = false
is_ok (fault _) = false
