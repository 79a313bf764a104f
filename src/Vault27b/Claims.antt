-- ===== src/Vault27b/Claims.antt =====
-- vaultdrop/qwen-3-8-27b-v2/src/vaultdrop/store.py: `finalize` up to `_claim`, and the text that
-- `valid_sha256_hex` of core.py accepts.
use qwen_3_8_evals.Prelude.{
  ℕ, zero, suc, ◌+◌, ◌-◌, ◌/◌, String, Bool, true, false, not, ◌&&◌, ◌||◌, Option, none, some, List,
  [], ◌∷◌, ◌++◌, length, ◌==◌, if◌then◌else◌, str_eq, find, count,
}
use qwen_3_8_evals.Prelude.Int.{ℤ, pos, negsuc}
use qwen_3_8_evals.Json.{Json, int_of}
use qwen_3_8_evals.Text.{codes, hex_value, hex_digit}
use qwen_3_8_evals.Effect.{Outcome, ok, err}
use qwen_3_8_evals.Vault27b.Types.{
  UploadState, opened, finalized, Upload, Artifact, ChunkFile, Store, ApiError, api_error, file_at,
  artifact_of,
}

-- Where `int(text, 16)` is in a numeral.
pub data NumeralState : Type 0 where
  begun prefixed after_digit after_underscore : NumeralState

abbrev pub may_underscore : NumeralState → Bool
may_underscore begun = false
may_underscore prefixed = true
may_underscore after_digit = true
may_underscore after_underscore = false

abbrev pub may_end : NumeralState → Bool
may_end begun = false
may_end prefixed = false
may_end after_digit = true
may_end after_underscore = false

-- str.isspace, in Latin-1
abbrev pub is_space : ℕ → Bool
is_space c =
    c == 9
    || c == 10
    || c == 11
    || c == 12
    || c == 13
    || c == 28
    || c == 29
    || c == 30
    || c == 31
    || c == 32
    || c == 133
    || c == 160

unfoldable pub all_space : List ℕ → Bool
all_space [] = true
all_space (c ∷ rest) = is_space c && all_space rest

-- The digits, up to blanks at the end.
unfoldable pub is_numeral : NumeralState → List ℕ → Bool
unfolding all_space
is_numeral state [] = may_end state
is_numeral state (c ∷ rest) =
    let digit = is_numeral after_digit rest in
    let underscore = is_numeral after_underscore rest in
    elim (hex_digit true c) [
      | some d ↦ digit
      | none ↦
          if c == b'_'
          then may_underscore state && underscore
          else may_end state && is_space c && all_space rest
    ]

abbrev pub after_prefix : List ℕ → Bool
after_prefix [] = false
after_prefix (c ∷ []) = is_numeral begun (c ∷ [])
after_prefix (c ∷ d ∷ rest) =
    if c == b'0' && (d == b'x' || d == b'X')
    then is_numeral prefixed rest
    else is_numeral begun (c ∷ d ∷ rest)

abbrev pub after_sign : List ℕ → Bool
after_sign [] = false
after_sign (c ∷ rest) =
    if c == b'+' || c == b'-' then after_prefix rest else after_prefix (c ∷ rest)

-- Whether `int(text, 16)` is accepted, for a text of Latin-1.
unfoldable pub is_int16 : List ℕ → Bool
unfolding is_numeral
is_int16 [] = false
is_int16 (c ∷ rest) = let more = is_int16 rest in if is_space c then more else after_sign (c ∷ rest)

-- `valid_sha256_hex`
unfoldable pub valid_sha256_hex : List ℕ → Bool
unfolding is_int16
valid_sha256_hex text = length text == 64 && is_int16 text

-- `digest == declared.lower()`
abbrev pub spells : List ℕ → ℕ → Bool
spells text digest = elim (hex_value true (some 0) text) [ none ↦ false | some n ↦ n == digest ]

-- `_expected_indices`, where chunk_size is positive
abbrev pub expected_indices : ℕ → ℕ → ℕ
expected_indices total_size chunk_size = (total_size + chunk_size - 1) / chunk_size

-- `_get_upload`
abbrev pub owned : String → ℕ → Upload → Bool
owned tenant upload_id u = u.upload_id == upload_id && str_eq u.tenant_id tenant

-- `isinstance(declared_sha, str) and valid_sha256_hex(declared_sha)`
unfoldable pub declared_text : Json → Option (List ℕ)
unfolding valid_sha256_hex
declared_text (Json.str s) = if valid_sha256_hex (codes s) then some (codes s) else none
declared_text Json.null = none
declared_text (Json.bool _) = none
declared_text (Json.num _) = none
declared_text (Json.float _) = none
declared_text (Json.arr _) = none
declared_text (Json.obj _) = none

abbrev pub is_size : Option ℤ → ℕ → Bool
is_size none n = false
is_size (some (pos m)) n = m == n
is_size (some (negsuc m)) n = false

-- What a finalization takes to its assembly: the row that it read, the declared digest, and the id and
-- the clock of the artifact.
pub record Order : Type 0 where
  pub row : Upload
  pub declared : List ℕ
  pub artifact_id : ℕ
  pub now : ℕ

-- The arguments of `_claim`, with the assembled bytes.
pub record Claim : Type 0 where
  pub upload_id : ℕ
  pub tenant_id : String
  pub name : String
  pub size : ℕ
  pub digest : ℕ
  pub artifact_id : ℕ
  pub now : ℕ
  pub content : List ℕ

-- The first part of `finalize`: an order, or the artifact that there is already.
pub data Begun : Type 0 where
  ordered : Order → Begun
  existing : ℕ → Begun

-- `state == "finalized"`, with the row of its artifact.
abbrev pub former : UploadState → Option Artifact → Option ℕ
former opened a = none
former finalized none = none
former finalized (some a) = some a.artifact_id

abbrev pub complete : ℕ → Upload → List ℕ → ℕ → ℕ → Outcome ApiError Begun
complete present u declared artifact_id now =
    if present == expected_indices u.total_size u.chunk_size
    then ok
        (ordered (record { row = u; declared = declared; artifact_id = artifact_id; now = now }))
    else err (api_error 422 "incomplete upload")

unfoldable pub begin_finalize : String → ℕ → Json → Json → ℕ → ℕ → Store → Outcome ApiError Begun
unfolding declared_text
begin_finalize tenant upload_id sha size artifact_id now s =
    elim (find (owned tenant upload_id) s.uploads) [
      | none ↦ err (api_error 404 "not found")
      | some u ↦
          if not (is_size (int_of size) u.total_size)
          then err (api_error 422 "size does not match upload total_size")
          else elim (declared_text sha) [
            | none ↦ err (api_error 422 "bad sha256")
            | some text ↦ elim (former u.state (find (artifact_of upload_id) s.artifacts)) [
              | some i ↦ ok (existing i)
              | none ↦
                  complete (count (λ c. c.upload_id == upload_id) s.chunks) u text artifact_id now
            ]
          ]
    ]

abbrev pub append_both : Option (List ℕ) → Option (List ℕ) → Option (List ℕ)
append_both (some xs) (some ys) = some (xs ++ ys)
append_both none _ = none
append_both (some xs) none = none

abbrev pub content_of : Option ChunkFile → Option (List ℕ)
content_of none = none
content_of (some f) = some f.content

-- `streaming_hash_files` over the chunk files from `index` on, of which `left` remain; none is a missing
-- file.
unfoldable pub stream_files : ℕ → ℕ → ℕ → List ChunkFile → Option (List ℕ)
stream_files upload_id index zero files = some []
stream_files upload_id index (suc left) files =
    append_both (content_of (find (file_at upload_id index) files))
      (stream_files upload_id (suc index) left files)

module _ (sha256 : List ℕ → ℕ) where
  -- The checks on what was assembled.
  unfoldable pub check_content : Option (List ℕ) → Order → Outcome ApiError Claim
  check_content none o = err (api_error 422 "stored chunk missing; re-upload required")
  check_content (some content) o =
      if not (length content == o.row.total_size)
      then err (api_error 422 "assembled size != declared")
      else if spells o.declared (sha256 content)
      then ok (record {
        upload_id = o.row.upload_id;
        tenant_id = o.row.tenant_id;
        name = o.row.name;
        size = o.row.total_size;
        digest = sha256 content;
        artifact_id = o.artifact_id;
        now = o.now;
        content = content;
      })
      else err (api_error 422 "artifact sha256 mismatch")

  unfoldable pub assemble : Order → Store → Outcome ApiError Claim
  unfolding stream_files check_content
  assemble o s =
      check_content
        (stream_files o.row.upload_id 0 (expected_indices o.row.total_size o.row.chunk_size)
          s.chunk_files)
        o
