-- ===== src/Vault27b/Bytes/Local.antt =====
-- What one step of a thread of vaultdrop/qwen-3-8-27b-v2 must respect.
use qwen_3_8_evals.Prelude.{ℕ, ◌≡◌, ◌⊎◌, inl, inr, true, false, List, arith, ◌==◌, Bool-cases}
use qwen_3_8_evals.Vault27b.Types.{Store}
use qwen_3_8_evals.Vault27b.Threads.{Worker}
use qwen_3_8_evals.Vault27b.System.{System, set_worker, moved, quarantines, Available}
use qwen_3_8_evals.Vault27b.Counts.{StoreIsValid}
use qwen_3_8_evals.Vault27b.Bytes.{present, usable, Addressed, Tidy, IsValid, Frame, Tidy-Frame}

-- The bytes of a digest after a step: in its file, quarantined by the thread, or not where the thread
-- had them before.
abbrev pub Serves : (ℕ → Type 0) → Store → Worker → ℕ → Worker × Store → Type 0
Serves Av s w h next =
    (present h next.1 ≡ true)
    ⊎ ((quarantines h next.0 ≡ true) ⊎ (Av h × (present h s ≡ false) × (quarantines h w ≡ false)))

module _ (sha256 : List ℕ → ℕ) where
  pub record Respects (Av : ℕ → Type 0) (s : Store) (w : Worker) (next : Worker × Store)
      : Type 0 where
    pub addressed : Addressed sha256 next.1
    pub frame : Frame s next.1
    pub serves : (h : ℕ) → usable h next.1 ≡ true → Serves Av s w h next
    pub tidy : Tidy sha256 next.1 next.0

  -- What a step is given.
  pub record Given (Av : ℕ → Type 0) (s : Store) : Type 0 where
    pub addressed : Addressed sha256 s
    pub available : (h : ℕ) → usable h s ≡ true → Av h
    pub there : (h : ℕ) → present h s ≡ true → Av h

  pub same-Frame : (s : Store) → Frame s s
  same-Frame s = record { rows = λ h e. e; files = λ h e p. p }

  -- A step that moves no file and makes no digest usable.
  pub Serves-quiet :
      (Av : ℕ → Type 0) (s : Store) (w : Worker) (next : Worker × Store) (h : ℕ)
      → ((present h s ≡ true) → (present h next.1 ≡ true))
      → quarantines h w ≡ false
      → Av h
      → Serves Av s w h next
  Serves-quiet Av s w next h same q a = elim (Bool-cases (present h s)) [
    | inl p ↦ inl (same p)
    | inr p ↦ inr (inr (a, p, q))
  ]

  pub quiet :
      (Av : ℕ → Type 0) (s : Store) (w v : Worker)
      → Given Av s
      → ((h : ℕ) → quarantines h w ≡ false)
      → Tidy sha256 s v
      → Respects Av s w (v, s)
  quiet Av s w v g q t = record {
    addressed = g.addressed;
    frame = same-Frame s;
    serves = λ h e. Serves-quiet Av s w (v, s) h (λ p. p) (q h) (g.available h e);
    tidy = t;
  }

  module _ (s : System) (i : ℕ) (next : Worker × Store) (v : IsValid sha256 s)
      (r : Respects (λ h. Available h s) s.store (s.worker i) next) where
    after-Available : (h : ℕ) → usable h next.1 ≡ true → Available h (moved s i next)
    after-Available h e = elim (r.serves h e) [
      | inl p ↦ inl p
      | inr (inl q) ↦ inr (i, ground (arith, q))
      | inr (inr (inl p, absent, mine)) ↦ ground (arith, p, absent)
      | inr (inr (inr (j, q), absent, mine)) ↦ elim (Bool-cases (j == i)) [
        | inl k ↦ ground (arith, k, q, mine)
        | inr k ↦ inr (j, rw k q)
      ]
    ]

    Tidy-after : (k : ℕ) → Tidy sha256 next.1 (set_worker i next.0 s.worker k)
    Tidy-after k = elim (Bool-cases (k == i)) [
      | inl e ↦ rw e r.tidy
      | inr e ↦ rw e (Tidy-Frame sha256 s.store next.1 (s.worker k) r.frame (v.tidy k))
    ]

    pub moved-IsValid : StoreIsValid next.1 → IsValid sha256 (moved s i next)
    moved-IsValid c = record {
      counts = c;
      addressed = r.addressed;
      available = after-Available;
      tidy = Tidy-after;
    }
