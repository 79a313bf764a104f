-- ===== src/VaultQwen/Valid/Local.antt =====
-- What a single thread of vaultdrop/qwen-v3 must respect for the others.
use qwen_3_8_evals.Prelude.{ℕ, ◌≡◌, ◌≢◌, ◌⊎◌, inl, inr, true, false, List, arith, ◌==◌, Bool-cases}
use qwen_3_8_evals.VaultQwen.Types.{Store}
use qwen_3_8_evals.VaultQwen.Workers.{Worker}
use qwen_3_8_evals.VaultQwen.System.{System, set_worker, moved, owns}
use qwen_3_8_evals.VaultQwen.Valid.{Held, StoreIsValid, Tidy, IsValid}

module _ (sha256 : List ℕ → ℕ) where
  -- A thread that goes from `w` to the one of `next`: `others` are the digests that other threads own.
  pub record Respects (others : ℕ → Type 0) (s : Store) (w : Worker) (next : Worker × Store)
      : Type 0 where
    pub store_valid : StoreIsValid sha256 next.1
    pub own : (h : ℕ) → owns h next.0 ≡ true → Held h next.1
    pub gain : (h : ℕ) → owns h next.0 ≡ true → (owns h w ≡ true) ⊎ ¬ (Held h s)
    pub frame : (h : ℕ) → others h → owns h w ≡ false → Held h s → Held h next.1
    pub tidy : Tidy sha256 next.0

  abbrev pub Others : System → ℕ → ℕ → Type 0
  Others s i h = (j : ℕ) × (j ≢ i) × (owns h (s.worker j) ≡ true)

  module _ (s : System) (i : ℕ) (next : Worker × Store) (v : IsValid sha256 s)
      (r : Respects (Others s i) s.store (s.worker i) next) where
    -- A digest that another thread owns is not owned by this one.
    old-Held : (k h : ℕ) → k == i ≡ false → owns h (s.worker k) ≡ true → Held h next.1
    old-Held k h e o = elim (Bool-cases (owns h (s.worker i))) [
      | inl p ↦ ground (arith, v.single k i h o p)
      | inr p ↦ r.frame h (k, ground arith, o) p (v.held k h o)
    ]

    new_single : (k h : ℕ) → owns h (s.worker k) ≡ true → owns h next.0 ≡ true → k ≡ i
    new_single k h o p = elim (r.gain h p) [
      | inl q ↦ v.single k i h o q
      | inr unheld ↦ elim (unheld (v.held k h o)) [ ]
    ]

    Held-after : (k h : ℕ) → owns h (set_worker i next.0 s.worker k) ≡ true → Held h next.1
    Held-after k h o = elim (Bool-cases (k == i)) [
      | inl e ↦ r.own h (rw e at o)
      | inr e ↦ old-Held k h e (rw e at o)
    ]

    single_after :
        (k l h : ℕ)
        → owns h (set_worker i next.0 s.worker k) ≡ true
        → owns h (set_worker i next.0 s.worker l) ≡ true
        → k ≡ l
    single_after k l h o p = elim (Bool-cases (k == i)) [
      | inl e ↦ elim (Bool-cases (l == i)) [
        | inl f ↦ ground arith
        | inr f ↦ ground (arith, new_single l h (rw f at p) (rw e at o))
      ]
      | inr e ↦ elim (Bool-cases (l == i)) [
        | inl f ↦ ground (arith, new_single k h (rw e at o) (rw f at p))
        | inr f ↦ v.single k l h (rw e at o) (rw f at p)
      ]
    ]

    Tidy-after : (k : ℕ) → Tidy sha256 (set_worker i next.0 s.worker k)
    Tidy-after k = elim (Bool-cases (k == i)) [ inl e ↦ rw e r.tidy | inr e ↦ rw e (v.tidy k) ]

    pub moved-IsValid : IsValid sha256 (moved s i next)
    moved-IsValid = record {
      store_valid = r.store_valid;
      held = Held-after;
      single = single_after;
      tidy = Tidy-after;
    }
