-- ===== src/Text.antt =====
-- Texts as the lists of their characters, with what the programs do to them: comparison, the parts
-- of a path, and hexadecimal numerals.
use Prim.Native.Char.{code}
use qwen_3_8_evals.Prelude.{
  ℕ, ◌+◌, ◌-◌, ◌*◌, String, Bool, true, false, ◌&&◌, Option, none, some, List, [], length, ◌∷◌,
  ◌++◌, leb, ◌==◌, if◌then◌else◌,
}

-- A text as its characters.
abbrev pub codes : String → List ℕ
codes String.[] = []
codes (String.◌∷◌ c s) = code c ∷ codes s

unfoldable pub same_text : List ℕ → List ℕ → Bool
same_text [] [] = true
same_text [] (y ∷ ys) = false
same_text (x ∷ xs) [] = false
same_text (x ∷ xs) (y ∷ ys) = x == y && same_text xs ys

abbrev pub is_word : List ℕ → String → Bool
is_word part word = same_text part (codes word)

-- `[p for p in path.split("/") if p]`, with the part that is being read.
unfoldable pub split_parts : List ℕ → List ℕ → List (List ℕ)
split_parts part [] = elim part [ [] ↦ [] | x ∷ xs ↦ (x ∷ xs) ∷ [] ]
split_parts part (c ∷ rest) =
    let next = split_parts [] rest in
    let more = split_parts (part ++ c ∷ []) rest in
    if c == b'/' then elim part [ [] ↦ next | x ∷ xs ↦ (x ∷ xs) ∷ next ] else more

abbrev pub is_between : ℕ → ℕ → ℕ → Bool
is_between lo hi c = leb lo c && leb c hi

-- The value of a hexadecimal digit; `upper` says whether A-F are allowed.
abbrev pub hex_digit : Bool → ℕ → Option ℕ
hex_digit upper c =
    if is_between b'0' b'9' c
    then some (c - b'0')
    else if is_between b'a' b'f' c
    then some (c - b'a' + 10)
    else if upper && is_between b'A' b'F' c
    then some (c - b'A' + 10)
    else none

abbrev pub push_digit : Option ℕ → Option ℕ → Option ℕ
push_digit (some n) (some d) = some (n * 16 + d)
push_digit (some n) none = none
push_digit none d = none

unfoldable pub hex_value : Bool → Option ℕ → List ℕ → Option ℕ
hex_value upper acc [] = acc
hex_value upper acc (c ∷ rest) = hex_value upper (push_digit acc (hex_digit upper c)) rest

-- `[0-9a-f]{32}`, with the number that the id spells.
unfoldable pub parse_id : List ℕ → Option ℕ
unfolding hex_value
parse_id part = if length part == 32 then hex_value false (some 0) part else none
