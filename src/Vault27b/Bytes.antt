-- ===== src/Vault27b/Bytes.antt =====
-- The bytes of the blobs of vaultdrop/qwen-3-8-27b-v2: where they are while its threads go on.
pub mod Local
pub mod Claims
pub mod Sweeps
pub mod Steps
pub mod Runs
use qwen_3_8_evals.Prelude.{
  ℕ, ◌≡◌, ◌⊎◌, inl, inr, Bool, true, false, Option, none, some, List, [], ◌∷◌, All, All-map, find,
  any, lookup, Bool-cases, arith,
}
use qwen_3_8_evals.Vault27b.Types.{Blob, Store, is_present, is_usable, blob_at}
use qwen_3_8_evals.Vault27b.Claims.{Claim}
use qwen_3_8_evals.Vault27b.Threads.{
  Worker, idle, assembling, reading, placing, inserting, recovering, replacing, resurrecting,
  yielding, selecting, sweeping, quarantining, judging, restoring, answered,
}
use qwen_3_8_evals.Vault27b.System.{System, quarantines, Available}
use qwen_3_8_evals.Vault27b.Counts.{StoreIsValid}

abbrev pub present : ℕ → Store → Bool
present h s = is_present (lookup h s.blob_files)

abbrev pub has_row : ℕ → Store → Bool
has_row h s = any (blob_at h) s.blobs

abbrev pub usable : ℕ → Store → Bool
usable h s = is_usable (find (blob_at h) s.blobs)

abbrev pub Listed : Store → List Blob → Type 0
Listed s left = All (λ b. has_row b.content_hash s ≡ true) left

-- A finalization whose bytes are placed: they are there as long as the digest has no row.
abbrev pub Placed : ℕ → Bool → Store → Type 0
Placed h true s = Unit
Placed h false s = has_row h s ≡ false → present h s ≡ true

module _ (sha256 : List ℕ → ℕ) where
  abbrev pub Addressed : Store → Type 0
  Addressed s =
      (h : ℕ) (content : List ℕ) → lookup h s.blob_files ≡ some content → sha256 content ≡ h

  abbrev pub Ready : Claim → Bool → Store → Type 0
  Ready c held s = (sha256 c.content ≡ c.digest) × Placed c.digest held s

  -- What a thread knows, which the other threads leave true.
  abbrev pub Tidy : Store → Worker → Type 0
  Tidy s (reading c held _) = Ready c held s
  Tidy s (placing c held _) = Ready c held s
  Tidy s (inserting c _) = Ready c false s
  Tidy s (recovering c held _) = Ready c held s
  Tidy s (replacing c held _) = Ready c held s × (has_row c.digest s ≡ true)
  Tidy s (resurrecting c _) = Ready c false s
  Tidy s (yielding c held _) = Ready c held s
  Tidy s (sweeping _ left) = Listed s left
  Tidy s (quarantining _ b _ rest) = (has_row b.content_hash s ≡ true) × Listed s rest
  Tidy s (judging _ b _ content rest) = (sha256 content ≡ b.content_hash) × Listed s rest
  Tidy s (restoring _ b content rest) = (sha256 content ≡ b.content_hash) × Listed s rest
  Tidy s idle = Unit
  Tidy s (assembling _) = Unit
  Tidy s selecting = Unit
  Tidy s (answered _) = Unit

  pub record IsValid (s : System) : Type 0 where
    pub counts : StoreIsValid s.store
    pub addressed : Addressed s.store
    pub available : (h : ℕ) → usable h s.store ≡ true → Available h s
    pub tidy : (i : ℕ) → Tidy s.store (s.worker i)

-- What every step leaves to the other threads.
pub record Frame (s t : Store) : Type 0 where
  pub rows : (h : ℕ) → has_row h s ≡ true → has_row h t ≡ true
  pub files : (h : ℕ) → has_row h t ≡ false → present h s ≡ true → present h t ≡ true

pub Listed-frame : (s t : Store) (left : List Blob) → Frame s t → Listed s left → Listed t left
Listed-frame s t left f l = All-map left (λ b e. f.rows b.content_hash e) l

Placed-Frame : (h : ℕ) (held : Bool) (s t : Store) → Frame s t → Placed h held s → Placed h held t
Placed-Frame h true s t f p = tt
Placed-Frame h false s t f p = λ e.
    f.files h e
      (p (elim (Bool-cases (has_row h s)) [ inl k ↦ ground (arith, f.rows h k) | inr k ↦ k ]))

module _ (sha256 : List ℕ → ℕ) where
  pub Tidy-Frame : (s t : Store) (w : Worker) → Frame s t → Tidy sha256 s w → Tidy sha256 t w
  Tidy-Frame s t (reading c held _) f (v, p) = (v, Placed-Frame c.digest held s t f p)
  Tidy-Frame s t (placing c held _) f (v, p) = (v, Placed-Frame c.digest held s t f p)
  Tidy-Frame s t (inserting c _) f (v, p) = (v, Placed-Frame c.digest false s t f p)
  Tidy-Frame s t (recovering c held _) f (v, p) = (v, Placed-Frame c.digest held s t f p)
  Tidy-Frame s t (replacing c held _) f x =
      ((x.0.0, Placed-Frame c.digest held s t f x.0.1), f.rows c.digest x.1)
  Tidy-Frame s t (resurrecting c _) f (v, p) = (v, Placed-Frame c.digest false s t f p)
  Tidy-Frame s t (yielding c held _) f (v, p) = (v, Placed-Frame c.digest held s t f p)
  Tidy-Frame s t (sweeping _ left) f l = Listed-frame s t left f l
  Tidy-Frame s t (quarantining _ b _ rest) f (e, l) =
      (f.rows b.content_hash e, Listed-frame s t rest f l)
  Tidy-Frame s t (judging _ b _ content rest) f (e, l) = (e, Listed-frame s t rest f l)
  Tidy-Frame s t (restoring _ b content rest) f (e, l) = (e, Listed-frame s t rest f l)
  Tidy-Frame s t idle f x = tt
  Tidy-Frame s t (assembling _) f x = tt
  Tidy-Frame s t selecting f x = tt
  Tidy-Frame s t (answered _) f x = tt
