-- ===== src/VaultSol/Http.antt =====
-- The requests of vaultdrop.py's `Handler`: the path and its parts, the headers that are read, and
-- `json_body`. Python's `int()` and `json.loads` are arguments.
pub mod Dispatch
pub mod Access
pub mod Valid
use qwen_3_8_evals.Prelude.{
  ℕ, ◌+◌, ◌-◌, ◌*◌, String, Bool, true, false, not, ◌&&◌, ◌||◌, Option, none, some, List, [], ◌∷◌,
  ◌++◌, length, take, leb, ltb, ◌==◌, if◌then◌else◌, str_eq,
}
use qwen_3_8_evals.Prelude.Int.{ℤ, pos, negsuc}
use qwen_3_8_evals.Text.{
  parse_id, codes, same_text, is_word, split_parts, is_between, hex_digit, push_digit, hex_value,
}
use qwen_3_8_evals.Json.{Json, Fields, fields_of}
use qwen_3_8_evals.VaultSol.Action.{Result, api_error, closing_error}
use qwen_3_8_evals.Effect.{ok, err, fault}

-- INPUT_HASH_RE.fullmatch, and the number that the digest spells, which `.lower()` leaves alone.
unfoldable pub parse_hash : List ℕ → Option ℕ
unfolding hex_value
parse_hash text = if length text == 64 then hex_value true (some 0) text else none

pub record Request : Type 0 where
  pub method : String
  pub path : String
  -- what follows "Bearer " in Authorization
  pub bearer : Option String
  pub transfer_encoding : Option String
  pub content_length : Option String
  -- X-Chunk-SHA256, empty if it is missing
  pub checksum : String
  -- the bytes of the body that arrive before the connection ends
  pub body : List ℕ

abbrev pub max_json_size : ℕ
max_json_size = 65536

abbrev pub max_chunk_size : ℕ
max_chunk_size = 33554432

abbrev pub max_artifact_size : ℕ
max_artifact_size = 10737418240

-- `Handler._token` gives the text; `urlsplit` the path. `n if 0 <= n <= limit`.
abbrev pub within : ℕ → ℤ → Option ℕ
within limit (pos n) = if leb n limit then some n else none
within limit (negsuc _) = none

abbrev pub is_present : Option String → Bool
is_present none = false
is_present (some _) = true

module _ (parse_int : List ℕ → Option ℤ) where
  -- `int(raw_length)` and its bounds.
  abbrev pub length_of : Option ℤ → ℕ → String → Result ℕ
  length_of none limit message = err (closing_error 400 "invalid Content-Length")
  length_of (some n) limit message = elim (within limit n) [
    | none ↦ err (closing_error 413 message)
    | some k ↦ ok k
  ]

  -- The header checks that `json_body` and a chunk's PUT share.
  unfoldable pub body_length : Request → ℕ → String → Result ℕ
  body_length r limit message =
      if is_present r.transfer_encoding
      then err (closing_error 400 "Transfer-Encoding is not supported")
      else elim r.content_length [
        | none ↦ err (closing_error 411 "Content-Length required")
        | some raw ↦ length_of (parse_int (codes raw)) limit message
      ]

  abbrev pub object_of : Option Json → Result Fields
  object_of none = err (api_error 400 "invalid JSON")
  object_of (some value) = elim (fields_of value) [
    | none ↦ err (api_error 400 "JSON body must be an object")
    | some fs ↦ ok fs
  ]

  module _ (loads : List ℕ → Option Json) where
    abbrev pub read_json : Result ℕ → List ℕ → Result Fields
    read_json (ok n) body =
        if ltb (length body) n
        then err (closing_error 400 "request body ended early")
        else object_of (loads (take n body))
    read_json (err e) body = err e
    read_json (fault m) body = fault m

    unfoldable pub json_body : Request → Result Fields
    unfolding body_length
    json_body r = read_json (body_length r max_json_size "JSON body too large") r.body
