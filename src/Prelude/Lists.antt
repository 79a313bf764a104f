-- ===== src/Prelude/Lists.antt =====
-- Lists measured by native numbers, under the library's names.
use Prim.Native.Nat.{ℕ, zero, suc, ◌+◌, ◌-◌, ◌≤◌, min}
use mathlib.Core.Path.{◌≡◌, refl, sym, ap, ◌∙◌}
use mathlib.Core.List.{List, [], ◌∷◌, ◌++◌, map}
use native.Mathlib.Omega.{arith}

module _ {ℓ} {A : Type ℓ} where
  abbrev pub length : List A → ℕ
  length [] = 0
  length (x ∷ xs) = suc (length xs)

  abbrev pub take : ℕ → List A → List A
  take zero xs = []
  take (suc n) [] = []
  take (suc n) (x ∷ xs) = x ∷ take n xs

  abbrev pub drop : ℕ → List A → List A
  drop zero xs = xs
  drop (suc n) [] = []
  drop (suc n) (x ∷ xs) = drop n xs

  abbrev pub All {κ} : (A → Type κ) → List A → Type κ
  All P [] = Unit
  All P (x ∷ xs) = P x × All P xs

  pub length-append : (xs ys : List A) → length (xs ++ ys) ≡ length xs + length ys
  length-append [] ys = omega arith
  length-append (x ∷ xs) ys = omega (arith, length-append xs ys)

  pub length-take : (n : ℕ) (xs : List A) → length (take n xs) ≡ min n (length xs)
  length-take zero xs = omega arith
  length-take (suc n) [] = omega arith
  length-take (suc n) (x ∷ xs) = omega (arith, length-take n xs)

  pub length-drop : (n : ℕ) (xs : List A) → length (drop n xs) ≡ length xs - n
  length-drop zero xs = omega arith
  length-drop (suc n) [] = omega arith
  length-drop (suc n) (x ∷ xs) = omega (arith, length-drop n xs)

module _ {ℓ} {A : Type ℓ} where
  take-nil : (n : ℕ) → take {A = A} n [] ≡ []
  take-nil zero = refl
  take-nil (suc n) = refl

  -- Taking some and then some more is taking as many at once.
  pub take-append-take :
      (k m n : ℕ) (xs : List A) → n ≡ k + m → take k xs ++ take m (drop k xs) ≡ take n xs
  take-append-take zero m n xs e = ap (λ t. take t xs) (omega arith)
  take-append-take (suc k) m zero xs e = absurd (omega arith)
  take-append-take (suc k) m (suc n) [] e = take-nil m
  take-append-take (suc k) m (suc n) (x ∷ xs) e =
      ap (λ t. x ∷ t) (take-append-take k m n xs (omega arith))

  -- What a read leaves for the next one, though it gave fewer than were asked for.
  pub take-append_rest :
      (k r : ℕ) (xs : List A)
      → k ≤ r
      → take k xs ++ take (r - length (take k xs)) (drop k xs) ≡ take r xs
  take-append_rest zero r xs h = ap (λ n. take n xs) (omega arith)
  take-append_rest (suc k) zero xs h = absurd (omega arith)
  take-append_rest (suc k) (suc r) [] h = take-nil _ ∙ sym (take-nil (suc r))
  take-append_rest (suc k) (suc r) (x ∷ xs) h =
      ap (λ t. x ∷ t)
        (ap (λ n. take k xs ++ take n (drop k xs)) (omega arith)
          ∙ take-append_rest k r xs (omega arith))

module _ {ℓ κ} {A : Type ℓ} {B : Type κ} where
  pub length-map : (f : A → B) (xs : List A) → length (map f xs) ≡ length xs
  length-map f [] = refl
  length-map f (x ∷ xs) = ap suc (length-map f xs)

abbrev pub sum : List ℕ → ℕ
sum [] = 0
sum (n ∷ ns) = n + sum ns
