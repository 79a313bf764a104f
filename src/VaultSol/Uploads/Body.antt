-- ===== src/VaultSol/Uploads/Body.antt =====
-- `put_chunk` of vaultdrop.py: the loop that reads the body, and the sizes of the chunks.
use mathlib.Core.List.{append-nil, append_assoc}
use native.Mathlib.Nat.{lt-mul-div-succ, le-div_iff_mul-le}
use qwen_3_8_evals.Prelude.{
  ℕ, zero, suc, ◌+◌, ◌-◌, ◌*◌, ◌≤◌, ◌<◌, ◌≢◌, min, ◌≡◌, none, some, List, ◌++◌, arith, length, take,
  drop, take-append-take, length-take, length-drop, leb, if◌then◌else◌,
}
use qwen_3_8_evals.VaultSol.Types.{Upload}
use qwen_3_8_evals.VaultSol.Uploads.{io_block, read_body, chunk_count, wanted_size}

-- What one round leaves for the rest of the loop.
step_exact :
    (k r : ℕ) (source out : List ℕ)
    → k ≤ r
    → 0 < k
    → length (take k source) ≢ 0
    → (if leb (r - length (take k source)) (length (drop k source))
        then some ((out ++ take k source) ++ take (r - length (take k source)) (drop k source))
        else none)
      ≡ (if leb r (length source) then some (out ++ take r source) else none)
step_exact k r source out h p ne =
    let n = length (take k source) in
    ground (
      arith,
      length-take k source,
      length-drop k source,
      append_assoc out (take k source) (take (r - n) (drop k source)),
      take-append-take k (r - n) r source,
    )

-- With as many rounds as bytes, the loop reads exactly the bytes asked for, and gives up exactly
-- when the source holds fewer.
pub read_body_exact :
    (fuel remaining : ℕ) (source out : List ℕ)
    → remaining ≤ fuel
    → read_body fuel remaining source out
      ≡ (if leb remaining (length source) then some (out ++ take remaining source) else none)
unfolding read_body
read_body_exact zero zero source out h = ground (arith, append-nil out)
read_body_exact zero (suc r) source out h = absurd (omega arith)
read_body_exact (suc fuel) zero source out h = ground (arith, append-nil out)
read_body_exact (suc fuel) (suc r) source out h =
    let k = min io_block (suc r) in
    ground (
      arith,
      length-take k source,
      step_exact k (suc r) source out,
      read_body_exact fuel (suc r - length (take k source)) (drop k source) (out ++ take k source),
    )

-- The sizes wanted of the chunks below `n`, added up.
unfoldable pub wanted_below : Upload → ℕ → ℕ
wanted_below u zero = 0
wanted_below u (suc n) = wanted_below u n + wanted_size u n

wanted_below-min : (u : Upload) (n : ℕ) → wanted_below u n ≡ min (n * u.chunk_size) u.total_size
unfolding wanted_below wanted_size
wanted_below-min u zero = omega arith
wanted_below-min u (suc n) = omega (arith, wanted_below-min u n)

chunk_count_covers : (u : Upload) → 0 < u.chunk_size → u.total_size ≤ chunk_count u * u.chunk_size
unfolding chunk_count
chunk_count_covers u h = omega (arith, lt-mul-div-succ (u.total_size + u.chunk_size - 1) h)

-- The chunks of an upload cover it: their wanted sizes add up to its total size.
pub wanted_total : (u : Upload) → 0 < u.chunk_size → wanted_below u (chunk_count u) ≡ u.total_size
wanted_total u h = omega (arith, wanted_below-min u (chunk_count u), chunk_count_covers u h)

-- Each chunk in range holds at least one byte and at most `chunk_size`.
pub wanted_size_bounds :
    (u : Upload) (i : ℕ)
    → 0 < u.chunk_size
    → i < chunk_count u
    → (0 < wanted_size u i) × (wanted_size u i ≤ u.chunk_size)
unfolding chunk_count wanted_size
wanted_size_bounds u i c h = omega (arith, (le-div_iff_mul-le c).0 h)
