-- ===== src/Vault27b/Http.antt =====
-- vaultdrop/qwen-3-8-27b-v2/src/vaultdrop: `_load_auth` of main.py; `Auth`, `_clen` and the paths of
-- `_route` of httpd.py; `read_json_body` of core.py. Texts of headers and of the path are their
-- characters; Python's `int()` and `json.loads` are arguments.
use qwen_3_8_evals.Prelude.{
  ℕ, ◌+◌, ◌-◌, ◌*◌, String, Bool, true, false, not, ◌&&◌, ◌||◌, Option, none, some, List, [], ◌∷◌,
  ◌++◌, length, take, drop, leb, ltb, ◌==◌, if◌then◌else◌, str_eq,
}
use qwen_3_8_evals.Prelude.Int.{ℤ, pos, negsuc}
use qwen_3_8_evals.Json.{Json, Items, Fields, get, fields_of}
use qwen_3_8_evals.Text.{codes, is_word, is_between, parse_id}
use qwen_3_8_evals.Effect.{Outcome, ok, err}
use qwen_3_8_evals.Vault27b.Types.{ApiError, api_error}
use qwen_3_8_evals.Vault27b.Claims.{is_space}

-- `Auth`: token to tenant, the last entry of a token first; none is an admin token that is no text.
pub record Auth : Type 0 where
  pub tenant_of : List (String × String)
  pub admin_token : Option String

abbrev pub any_text : Json → Option String
any_text (Json.str s) = some s
any_text Json.null = none
any_text (Json.bool _) = none
any_text (Json.num _) = none
any_text (Json.float _) = none
any_text (Json.arr _) = none
any_text (Json.obj _) = none

-- `if not isinstance(...): raise ValueError`, and an entry that is no dict.
abbrev pub entry_of : Option Fields → Option (String × String)
entry_of none = none
entry_of (some t) = elim (any_text (get "id" t)) [
  | none ↦ none
  | some i ↦ elim (any_text (get "token" t)) [ none ↦ none | some token ↦ some (token, i) ]
]

unfoldable pub load_entries : Items → List (String × String) → Option (List (String × String))
load_entries Items.nil entries = some entries
load_entries (Items.cons item rest) entries = elim (entry_of (fields_of item)) [
  | none ↦ none
  | some e ↦ load_entries rest (e ∷ entries)
]

-- `for t in tenants`; an empty text or dict has no entry.
unfoldable pub load_tenants : Json → Option (List (String × String))
unfolding load_entries
load_tenants (Json.arr items) = load_entries items []
load_tenants (Json.obj Fields.end) = some []
load_tenants (Json.obj (Fields.field _ _ _)) = none
load_tenants (Json.str s) = if length (codes s) == 0 then some [] else none
load_tenants Json.null = none
load_tenants (Json.bool _) = none
load_tenants (Json.num _) = none
load_tenants (Json.float _) = none

abbrev pub has_key : String → Fields → Bool
has_key key Fields.end = false
has_key key (Fields.field k v rest) = if str_eq k key then true else has_key key rest

-- `_load_auth`; none ends the process.
unfoldable pub load_auth : Json → Option Auth
unfolding load_tenants
load_auth doc = elim (fields_of doc) [
  | none ↦ none
  | some d ↦
      if has_key "tenants" d && has_key "admin_token" d
      then elim (load_tenants (get "tenants" d)) [
        | none ↦ none
        | some entries ↦
            some (record { tenant_of = entries; admin_token = any_text (get "admin_token" d) })
      ]
      else none
]

pub data Caller : Type 0 where
  tenant : String → Caller
  admin : Caller

unfoldable pub has_space : List ℕ → Bool
has_space [] = false
has_space (c ∷ rest) = is_space c || has_space rest

-- `Bearer (\S+)`
unfoldable pub bearer : List ℕ → Option (List ℕ)
unfolding has_space
bearer header =
    let token = drop 7 header in
    if is_word (take 7 header) "Bearer " && not (length token == 0) && not (has_space token)
    then some token
    else none

unfoldable pub find_tenant : List ℕ → List (String × String) → Outcome ApiError Caller
find_tenant token [] = err (api_error 401 "unknown token")
find_tenant token ((t, i) ∷ rest) =
    if is_word token t then ok (tenant i) else find_tenant token rest

abbrev pub is_admin : List ℕ → Option String → Bool
is_admin token none = false
is_admin token (some a) = is_word token a

abbrev pub check_token : Auth → Option (List ℕ) → Outcome ApiError Caller
check_token auth none = err (api_error 401 "missing bearer token")
check_token auth (some token) =
    if is_admin token auth.admin_token then ok admin else find_tenant token auth.tenant_of

-- `Auth.check`
unfoldable pub check : Auth → Option (List ℕ) → Outcome ApiError Caller
unfolding bearer find_tenant
check auth none = err (api_error 401 "missing bearer token")
check auth (some header) = check_token auth (bearer header)

-- The path at each "/", with the part that is being read.
unfoldable pub split_slash : List ℕ → List ℕ → List (List ℕ)
split_slash part [] = part ∷ []
split_slash part (c ∷ rest) =
    let next = split_slash [] rest in
    let more = split_slash (part ++ c ∷ []) rest in if c == b'/' then part ∷ next else more

unfoldable pub digits : Option ℕ → List ℕ → Option ℕ
digits acc [] = acc
digits none (c ∷ rest) =
    let next = digits (some (c - b'0')) rest in if is_between b'0' b'9' c then next else none
digits (some n) (c ∷ rest) =
    let next = digits (some (n * 10 + (c - b'0'))) rest in
    if is_between b'0' b'9' c then next else none

-- The regular expressions of `_route`. An index of more digits than `int` takes is a fault.
pub data Route : Type 0 where
  uploads : Route
  chunk : ℕ → Option ℕ → Route
  finalization : ℕ → Route
  upload : ℕ → Route
  artifacts : Route
  artifact : ℕ → Route
  gc blobs validate : Route
  unknown : Route

abbrev pub max_digits : ℕ
max_digits = 4300

abbrev pub chunk_route : Option ℕ → Option ℕ → List ℕ → Route
chunk_route none i text = unknown
chunk_route (some u) none text = unknown
chunk_route (some u) (some i) text = chunk u (if leb (length text) max_digits then some i else none)

abbrev pub id_route : (ℕ → Route) → Option ℕ → Route
id_route route none = unknown
id_route route (some i) = route i

unfoldable pub route_of : List (List ℕ) → Route
unfolding digits
route_of ([] ∷ a ∷ []) =
    if is_word a "uploads" then uploads else if is_word a "artifacts" then artifacts else unknown
route_of ([] ∷ a ∷ b ∷ []) =
    if is_word a "uploads"
    then id_route upload (parse_id b)
    else if is_word a "artifacts"
    then id_route artifact (parse_id b)
    else if is_word a "admin"
    then (if is_word b "gc"
        then gc
        else if is_word b "blobs"
        then blobs
        else if is_word b "validate"
        then validate
        else unknown)
    else unknown
route_of ([] ∷ a ∷ b ∷ c ∷ []) =
    if is_word a "uploads" && is_word c "finalize"
    then id_route finalization (parse_id b)
    else unknown
route_of ([] ∷ a ∷ b ∷ c ∷ d ∷ []) =
    if is_word a "uploads" && is_word c "chunks"
    then chunk_route (parse_id b) (digits none d) d
    else unknown
route_of _ = unknown

pub record HttpRequest : Type 0 where
  pub method : String
  -- before "?"
  pub path : List ℕ
  pub authorization : Option (List ℕ)
  pub content_length : Option (List ℕ)
  pub checksum : Option (List ℕ)
  -- the bytes of the body that arrive before the connection ends
  pub body : List ℕ

-- What a request takes from outside: hashlib's sha256, `int()`, `json.loads`, a new id and the clock.
pub record Env : Type 0 where
  pub sha256 : List ℕ → ℕ
  pub parse_int : List ℕ → Option ℤ
  pub loads : List ℕ → Option Json
  pub new_id : ℕ
  pub now : ℕ

abbrev pub parsed_length : Option ℤ → ℤ
parsed_length none = negsuc 0
parsed_length (some n) = n

-- `_clen`
abbrev pub clen : Env → HttpRequest → ℤ
clen env r = elim r.content_length [ none ↦ pos 0 | some text ↦ parsed_length (env.parse_int text) ]

abbrev pub json_body_max : ℕ
json_body_max = 1048576

abbrev pub parsed_body : Option Json → Outcome ApiError Json
parsed_body none = err (api_error 400 "invalid json body")
parsed_body (some v) = ok v

abbrev pub read_bytes : (List ℕ → Option Json) → ℤ → List ℕ → Outcome ApiError Json
read_bytes loads (negsuc _) body = err (api_error 400 "bad content-length")
read_bytes loads (pos n) body =
    if ltb json_body_max n
    then err (api_error 413 "body too large")
    else if not (length (take n body) == n)
    then err (api_error 400 "truncated body")
    else parsed_body (loads (take n body))

-- `read_json_body`
unfoldable pub read_json_body : Env → HttpRequest → Outcome ApiError Json
read_json_body env r = read_bytes env.loads (clen env r) r.body
