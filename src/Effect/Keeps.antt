-- ===== src/Effect/Keeps.antt =====
-- Invariants of actions: a rule for each way in which an action is put together.
use qwen_3_8_evals.Prelude.{Bool, true, false, Option, none, some, if◌then◌else◌}
use qwen_3_8_evals.Effect.{
  Outcome, ok, err, fault, Effect, pure, raise, gets, lift, or_raise, raise_if, continue, ◌>>=◌,
}

-- `P` holds after `m` if it held before, whether `m` returns or raises.
pub record Keeps {S E : Type 0} (P : S → Type 0) {A : Type 0} (m : Effect S E A) : Type 0 where
  pub after : (s : S) → P s → P (m s).1

module _ {S E : Type 0} {P : S → Type 0} {A : Type 0} where
  pub Keeps-pure : (a : A) → Keeps {E = E} P (pure a)
  unfolding pure
  Keeps-pure a = record { after = λ s h. h }

  pub Keeps-raise : (e : E) → Keeps {E = E} P (raise {A = A} e)
  unfolding raise
  Keeps-raise e = record { after = λ s h. h }

  pub Keeps-gets : (f : S → A) → Keeps {E = E} P (gets f)
  unfolding gets
  Keeps-gets f = record { after = λ s h. h }

  pub Keeps-lift : (r : Outcome E A) → Keeps {E = E} P (lift r)
  unfolding lift
  Keeps-lift r = record { after = λ s h. h }

  pub Keeps-or_raise : (o : Option A) (e : E) → Keeps {E = E} P (or_raise o e)
  unfolding or_raise
  Keeps-or_raise none e = record { after = λ s h. h }
  Keeps-or_raise (some a) e = record { after = λ s h. h }

  pub Keeps-if :
      (b : Bool) (m n : Effect S E A) → Keeps P m → Keeps P n → Keeps {E = E} P (if b then m else n)
  Keeps-if true m n km kn = km
  Keeps-if false m n km kn = kn

module _ {S E : Type 0} {P : S → Type 0} where
  pub Keeps-raise_if : (b : Bool) (e : E) → Keeps {E = E} P (raise_if b e)
  unfolding raise_if
  Keeps-raise_if true e = record { after = λ s h. h }
  Keeps-raise_if false e = record { after = λ s h. h }

module _ {S E : Type 0} {P : S → Type 0} {A B : Type 0} where
  pub keeps_continue :
      (r : Outcome E A) (f : A → Effect S E B) (s : S)
      → ((a : A) → Keeps {E = E} P (f a))
      → P s
      → P (continue r f s).1
  keeps_continue (ok a) f s kf h = (kf a).after s h
  keeps_continue (err e) f s kf h = h
  keeps_continue (fault m) f s kf h = h

  pub Keeps-bind :
      (m : Effect S E A) (f : A → Effect S E B)
      → Keeps P m
      → ((a : A) → Keeps {E = E} P (f a))
      → Keeps {E = E} P (m >>= f)
  unfolding ◌>>=◌
  Keeps-bind m f km kf = record {
    after = λ s h. keeps_continue (m s).0 f (m s).1 kf (km.after s h);
  }

pub ruleset keeps_rules = (
  Keeps-pure, Keeps-raise, Keeps-gets, Keeps-lift, Keeps-or_raise, Keeps-raise_if, Keeps-if,
  Keeps-bind,
)
