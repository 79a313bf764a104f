-- ===== src/Prelude/Tables.antt =====
-- Tables whose rows have a key: what the statements do to the row of one key.
use Prim.Native.Nat.{ℕ, ◌+◌}
use mathlib.Core.Path.{◌≡◌, refl}
use mathlib.Core.Bool.{Bool, true, false}
use mathlib.Core.Option.{Option, none, some}
use mathlib.Core.List.{List, [], ◌∷◌}
use native.Mathlib.Omega.{arith}
use qwen_3_8_evals.Prelude.Tests.{if◌then◌else◌, ◌==◌}
use qwen_3_8_evals.Prelude.Lists.{All}
use qwen_3_8_evals.Prelude.Rows.{find, select, update, delete, any, count}

module _ {ℓ} {A : Type ℓ} where
  abbrev pub changed : (A → Bool) → (A → A) → Option A → Option A
  changed p f none = none
  changed p f (some x) = some (if p x then f x else x)

  abbrev pub kept : (A → Bool) → Option A → Option A
  kept p none = none
  kept p (some x) = if p x then none else some x

  abbrev pub holds : (A → Bool) → Option A → Bool
  holds p none = false
  holds p (some x) = p x

module _ {ℓ} {A : Type ℓ} (key : A → ℕ) where
  abbrev pub at : ℕ → A → Bool
  at k x = key x == k

  -- The primary key.
  abbrev pub Distinct : List A → Type 0
  Distinct [] = Unit
  Distinct (x ∷ xs) = (any (at (key x)) xs ≡ false) × Distinct xs

  pub find-update :
      (k : ℕ) (p : A → Bool) (f : A → A) (xs : List A)
      → ((x : A) → key (f x) ≡ key x)
      → find (at k) (update p f xs) ≡ changed p f (find (at k) xs)
  unfolding find update
  find-update k p f [] same = refl
  find-update k p f (x ∷ xs) same = ground (arith, same x, find-update k p f xs same)

  pub any-update :
      (k : ℕ) (p : A → Bool) (f : A → A) (xs : List A)
      → ((x : A) → key (f x) ≡ key x)
      → any (at k) (update p f xs) ≡ any (at k) xs
  unfolding any update
  any-update k p f [] same = refl
  any-update k p f (x ∷ xs) same = ground (arith, same x, any-update k p f xs same)

  pub Distinct-update :
      (p : A → Bool) (f : A → A) (xs : List A)
      → ((x : A) → key (f x) ≡ key x)
      → Distinct xs
      → Distinct (update p f xs)
  unfolding update
  Distinct-update p f [] same d = tt
  Distinct-update p f (x ∷ xs) same d = ground (
    arith,
    same x,
    any-update (key x) p f xs same,
    any-update (key (f x)) p f xs same,
    Distinct-update p f xs same d.1,
  )

  pub any-delete :
      (k : ℕ) (p : A → Bool) (xs : List A)
      → any (at k) xs ≡ false
      → any (at k) (delete p xs) ≡ false
  unfolding any delete
  any-delete k p [] e = refl
  any-delete k p (x ∷ xs) e = ground (arith, any-delete k p xs)

  pub Distinct-delete : (p : A → Bool) (xs : List A) → Distinct xs → Distinct (delete p xs)
  unfolding delete
  Distinct-delete p [] d = tt
  Distinct-delete p (x ∷ xs) d = ground (arith, any-delete (key x) p xs, Distinct-delete p xs d.1)

  -- A key without a row.
  pub find-none : (k : ℕ) (xs : List A) → any (at k) xs ≡ false → find (at k) xs ≡ none
  unfolding any find
  find-none k [] e = refl
  find-none k (x ∷ xs) e = ground (arith, find-none k xs)

  pub find-delete :
      (k : ℕ) (p : A → Bool) (xs : List A)
      → Distinct xs
      → find (at k) (delete p xs) ≡ kept p (find (at k) xs)
  unfolding find delete
  find-delete k p [] d = refl
  find-delete k p (x ∷ xs) d =
      ground (arith, find-delete k p xs d.1, find-none k (delete p xs), any-delete k p xs)

  any-select :
      (k : ℕ) (p : A → Bool) (xs : List A)
      → any (at k) xs ≡ false
      → any (at k) (select p xs) ≡ false
  unfolding any select
  any-select k p [] e = refl
  any-select k p (x ∷ xs) e = ground (arith, any-select k p xs)

  pub Distinct-select : (p : A → Bool) (xs : List A) → Distinct xs → Distinct (select p xs)
  unfolding select
  Distinct-select p [] d = tt
  Distinct-select p (x ∷ xs) d = ground (arith, any-select (key x) p xs, Distinct-select p xs d.1)

  -- The row of a key that a SELECT kept is a row of the table that meets the condition.
  pub find-select :
      (k : ℕ) (p : A → Bool) (xs : List A)
      → Distinct xs
      → any (at k) (select p xs) ≡ true
      → holds p (find (at k) xs) ≡ true
  unfolding any find select
  find-select k p [] d e = cc
  find-select k p (x ∷ xs) d e = ground (arith, find-select k p xs d.1, any-select k p xs)

  abbrev pub Keyed : ℕ → Option A → Type 0
  Keyed k none = Unit
  Keyed k (some x) = key x ≡ k

  pub find-Keyed : (k : ℕ) (xs : List A) → Keyed k (find (at k) xs)
  unfolding find
  find-Keyed k [] = tt
  find-Keyed k (x ∷ xs) = ground (arith, find-Keyed k xs)

  pub any-find : (k : ℕ) (xs : List A) → any (at k) xs ≡ holds (λ _. true) (find (at k) xs)
  unfolding any find
  any-find k [] = refl
  any-find k (x ∷ xs) = ground (arith, any-find k xs)

  -- What holds of all rows holds of the row of a key.
  abbrev pub Each {κ} : (A → Type κ) → Option A → Type κ
  Each P none = Unit
  Each P (some x) = P x

  pub find-Each {κ} : (P : A → Type κ) (k : ℕ) (xs : List A) → All P xs → Each P (find (at k) xs)
  unfolding find
  find-Each P k [] h = tt
  find-Each P k (x ∷ xs) h = ground (arith, find-Each P k xs h.1)

  -- A row that some SELECT returns is the row of its key.
  pub find-any :
      (p : A → Bool) (a : A) (xs : List A) → find p xs ≡ some a → any (at (key a)) xs ≡ true
  unfolding find any
  find-any p a [] e = cc
  find-any p a (x ∷ xs) e = ground (arith, find-any p a xs)

  pub find-own :
      (p : A → Bool) (a : A) (xs : List A)
      → Distinct xs
      → find p xs ≡ some a
      → find (at (key a)) xs ≡ some a
  unfolding find
  find-own p a [] d e = cc
  find-own p a (x ∷ xs) d e = ground (arith, find-own p a xs d.1, find-any p a xs)

  count-absent :
      (q : A → Bool) (k : ℕ) (xs : List A)
      → any (at k) xs ≡ false
      → count q (delete (at k) xs) ≡ count q xs
  unfolding any delete count
  count-absent q k [] e = refl
  count-absent q k (x ∷ xs) e = ground (arith, count-absent q k xs)

  -- A DELETE by key takes away one row.
  pub count-delete :
      (q : A → Bool) (a : A) (xs : List A)
      → Distinct xs
      → find (at (key a)) xs ≡ some a
      → count q xs ≡ (if q a then 1 else 0) + count q (delete (at (key a)) xs)
  unfolding find delete count
  count-delete q a [] d e = cc
  count-delete q a (x ∷ xs) d e = ground (arith, count-delete q a xs d.1, count-absent q (key a) xs)
