-- ===== src/VaultQwen/Uploads/Body.antt =====
-- `store_chunk` of vaultdrop/qwen-v3: the loop that reads the body.
use mathlib.Core.List.{append-nil, append_assoc}
use qwen_3_8_evals.Prelude.{
  ℕ, zero, suc, ◌+◌, ◌-◌, ◌≤◌, ◌<◌, min, ◌≡◌, refl, ap, Bool, true, false, List, [], ◌∷◌, ◌++◌,
  arith, length, take, drop, take-append_rest, length-take, length-append, leb,
}
use qwen_3_8_evals.VaultQwen.Uploads.{io_block, Received, oversize, received, receive}

-- The bytes of one round and of the rounds after it.
rounds-length :
    (k r : ℕ) (xs : List ℕ)
    → k ≤ r
    → length (take k xs) + length (take (r - length (take k xs)) (drop k xs)) ≡ length (take r xs)
rounds-length k r xs h = ground (
  arith,
  length-append (take k xs) (take (r - length (take k xs)) (drop k xs)),
  ap length (take-append_rest k r xs h),
)

take-none : (r : ℕ) (xs : List ℕ) → length (take r xs) ≡ 0 → take r xs ≡ []
take-none zero xs e = refl
take-none (suc r) [] e = refl
take-none (suc r) (x ∷ xs) e = absurd (omega arith)

-- A body within the limit.
receive-fits :
    (fuel limit remaining : ℕ) (source out : List ℕ)
    → remaining ≤ fuel
    → length out + length (take remaining source) ≤ limit
    → receive fuel limit remaining source out ≡ received (out ++ take remaining source)
unfolding receive
receive-fits zero limit zero source out h fits = ground (arith, append-nil out)
receive-fits zero limit (suc r) source out h fits = absurd (omega arith)
receive-fits (suc fuel) limit remaining source out h fits =
    let k = min io_block remaining in
    let n = length (take k source) in
    ground (
      arith,
      append-nil out,
      take-none remaining source,
      length-take k source,
      length-take remaining source,
      rounds-length k remaining source,
      length-append out (take k source),
      append_assoc out (take k source) (take (remaining - n) (drop k source)),
      take-append_rest k remaining source,
      receive-fits fuel limit (remaining - n) (drop k source) (out ++ take k source),
    )

abbrev pub IsOversize : ℕ → Received → Type 0
IsOversize limit (oversize size) = (limit < size) × (size ≤ limit + io_block)
IsOversize limit (received _) = ⊥

-- A body beyond it is given up within a block of the limit.
receive-IsOversize :
    (fuel limit remaining : ℕ) (source out : List ℕ)
    → remaining ≤ fuel
    → length out ≤ limit
    → limit < length out + length (take remaining source)
    → IsOversize limit (receive fuel limit remaining source out)
unfolding receive
receive-IsOversize zero limit zero source out h small big = ground arith
receive-IsOversize zero limit (suc r) source out h small big = absurd (omega arith)
receive-IsOversize (suc fuel) limit remaining source out h small big =
    let k = min io_block remaining in
    let n = length (take k source) in
    ground (
      arith,
      length-take k source,
      length-take remaining source,
      rounds-length k remaining source,
      length-append out (take k source),
      receive-IsOversize fuel limit (remaining - n) (drop k source) (out ++ take k source),
    )

-- `fits` says whether what arrives of the body is within the limit.
abbrev pub IsRead : Bool → ℕ → List ℕ → Received → Type 0
IsRead true limit arrived r = r ≡ received arrived
IsRead false limit arrived r = IsOversize limit r

receive-IsRead :
    (fits : Bool) (limit n : ℕ) (source : List ℕ)
    → leb (length (take n source)) limit ≡ fits
    → IsRead fits limit (take n source) (receive n limit n source [])
receive-IsRead true limit n source e = receive-fits n limit n source [] (omega arith) (ground arith)
receive-IsRead false limit n source e =
    receive-IsOversize n limit n source [] (omega arith) (omega arith) (ground arith)

-- The loop that reads a chunk's body, given as many rounds as the body is declared to have bytes, is
-- done: it reads all that arrives, up to the declared length, if that is within the limit, and
-- otherwise gives up after reading more than the limit, by one block at most.
pub receive_exact :
    (limit content_length : ℕ) (source : List ℕ)
    → IsRead
        (leb (length (take content_length source)) limit)
        limit
        (take content_length source)
        (receive content_length limit content_length source [])
receive_exact limit content_length source = receive-IsRead _ limit content_length source refl
