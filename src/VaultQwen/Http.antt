-- ===== src/VaultQwen/Http.antt =====
-- vaultdrop/qwen-v3/src/httpd.py: the registry of tenants, authentication, and `_dispatch` with its
-- handlers. A request that ends in a finalization, a deletion or a collection is handed to a thread of
-- Workers; every other one is answered at once. Python's `int()` and `json.loads` are arguments.
use qwen_3_8_evals.Prelude.{
  ℕ, ◌+◌, ◌-◌, ◌*◌, String, Bool, true, false, ◌||◌, Option, none, some, List, [], ◌∷◌, ◌==◌,
  if◌then◌else◌, str_eq,
}
use qwen_3_8_evals.Prelude.Int.{ℤ}
use qwen_3_8_evals.Json.{
  Json, Items, Fields, nil, cons, null, bool, num, float, str, arr, obj, get, string_if, fields_of,
}
use qwen_3_8_evals.Text.{codes, is_between}
use qwen_3_8_evals.Effect.{Outcome, ok, err, fault}
use qwen_3_8_evals.VaultQwen.Types.{Store, Raised, upload_error, increment_lost}
use qwen_3_8_evals.VaultQwen.Claims.{Declared, missing, text, container, unsized}
use qwen_3_8_evals.VaultQwen.Workers.{Request}
use qwen_3_8_evals.VaultQwen.Uploads.{Status}
use qwen_3_8_evals.VaultQwen.Artifacts.{Listed, Download, Validation, BlobRow}

-- `_registry`: token to tenant id, the last entry of a token first.
pub record Registry : Type 0 where
  pub tenants : List (String × String)
  pub admin : Option String

abbrev pub any_text : Json → Option String
any_text = string_if (λ _. true)

abbrev pub entry : Option String → Option String → List (String × String) → List (String × String)
entry (some i) (some token) tenants = (token, i) ∷ tenants
entry (some i) none tenants = tenants
entry none token tenants = tenants

abbrev pub add_item : Option Fields → List (String × String) → List (String × String)
add_item none tenants = tenants
add_item (some t) tenants = entry (any_text (get "id" t)) (any_text (get "token" t)) tenants

unfoldable pub add_items : Items → List (String × String) → List (String × String)
add_items nil tenants = tenants
add_items (cons item rest) tenants = add_items rest (add_item (fields_of item) tenants)

-- `for t in doc.get("tenants", [])`: a text and a dict have only texts to go through, and a number,
-- a Boolean and None raise. A missing key reads as no tenant.
unfoldable pub read_tenants : Bool → Json → Outcome Raised (List (String × String))
unfolding add_items
read_tenants false v = ok []
read_tenants true (arr items) = ok (add_items items [])
read_tenants true (obj _) = ok []
read_tenants true (str _) = ok []
read_tenants true null = fault "object is not iterable"
read_tenants true (bool _) = fault "object is not iterable"
read_tenants true (num _) = fault "object is not iterable"
read_tenants true (float _) = fault "object is not iterable"

abbrev pub has_key : String → Fields → Bool
has_key key Fields.end = false
has_key key (Fields.field k v rest) = if str_eq k key then true else has_key key rest

abbrev pub with_admin :
    Option String → Outcome Raised (List (String × String)) → Outcome Raised Registry
with_admin admin (ok tenants) = ok (record { tenants = tenants; admin = admin })
with_admin admin (err e) = err e
with_admin admin (fault m) = fault m

-- `none` for a file that cannot be read or parsed.
unfoldable pub load_tenant_registry : Option Json → Outcome Raised Registry
unfolding read_tenants
load_tenant_registry none = ok (record { tenants = []; admin = none })
load_tenant_registry (some doc) = elim (fields_of doc) [
  | none ↦ fault "object has no attribute 'get'"
  | some fs ↦
      with_admin (any_text (get "admin_token" fs))
        (read_tenants (has_key "tenants" fs) (get "tenants" fs))
]

pub data Identity : Type 0 where
  tenant : String → Identity
  admin : Identity
  invalid : Identity

unfoldable pub tenant_of : String → List (String × String) → Identity
tenant_of token [] = invalid
tenant_of token ((t, i) ∷ rest) = if str_eq t token then tenant i else tenant_of token rest

abbrev pub is_admin : Option String → String → Bool
is_admin none token = false
is_admin (some a) token = str_eq token a

-- For what follows "Bearer " in the header, stripped; `none` if it does not begin so.
unfoldable pub authenticate : Registry → Option String → Identity
unfolding tenant_of
authenticate registry none = invalid
authenticate registry (some token) =
    if is_admin registry.admin token then admin else tenant_of token registry.tenants

pub record HttpRequest : Type 0 where
  pub method : String
  -- before "?"
  pub path : String
  pub bearer : Option String
  pub content_length : Option String
  pub checksum : Option (List ℕ)
  -- the bytes of the body that arrive before the connection ends
  pub body : List ℕ

pub data Body : Type 0 where
  healthy : Body
  error : String → Body
  created : ℕ → Body
  stored : ℕ → Body
  status : Status → Body
  artifacts : List Listed → Body
  download : Download → Body
  blobs : List BlobRow → Body
  validation : Validation → Body

-- What `_dispatch` does: it answers, or starts what a thread goes on with.
pub data Dispatched : Type 0 where
  replied : ℕ → Body → Dispatched
  begun : Request → Dispatched

abbrev pub refuse : ℕ → String → Store → Dispatched × Store
refuse code message s = (replied code (error message), s)

-- The answer to an UploadError, and to any other exception (`_route`).
abbrev pub answer : Outcome Raised Body → Dispatched
answer (ok body) = replied 200 body
answer (err (upload_error code message _)) = replied code (error message)
answer (err increment_lost) = replied 500 (error "internal error")
answer (fault _) = replied 500 (error "internal error")

abbrev pub created_of : Outcome Raised ℕ → Outcome Raised Body
created_of (ok i) = ok (created i)
created_of (err e) = err e
created_of (fault m) = fault m

abbrev pub stored_of : ℕ → Outcome Raised (Unit {0}) → Outcome Raised Body
stored_of i (ok _) = ok (stored i)
stored_of i (err e) = err e
stored_of i (fault m) = fault m

-- `str.isdigit`, which also takes the superscripts of Latin-1, that `int` does not.
pub data Index : Type 0 where
  not_index : Index
  bad_index : Index
  index : ℕ → Index

abbrev pub is_superscript : ℕ → Bool
is_superscript c = c == 178 || c == 179 || c == 185

abbrev pub next_digit : Index → ℕ → Index
next_digit not_index c = not_index
next_digit bad_index c = if is_between b'0' b'9' c || is_superscript c then bad_index else not_index
next_digit (index n) c =
    if is_between b'0' b'9' c
    then index (n * 10 + (c - b'0'))
    else if is_superscript c
    then bad_index
    else not_index

unfoldable pub digits : Index → List ℕ → Index
digits n [] = n
digits n (c ∷ rest) = digits (next_digit n c) rest

unfoldable pub index_of : List ℕ → Index
unfolding digits
index_of [] = not_index
index_of (c ∷ rest) = digits (index 0) (c ∷ rest)

abbrev pub count_items : Items → ℕ
count_items nil = 0
count_items (cons _ rest) = 1 + count_items rest

abbrev pub count_fields : Fields → ℕ
count_fields Fields.end = 0
count_fields (Fields.field _ _ rest) = 1 + count_fields rest

-- `doc.get("sha256")`, in lowercase if it is a text
abbrev pub declared_of : Json → Declared
declared_of null = missing
declared_of (str s) = text (codes s)
declared_of (arr items) = container (count_items items)
declared_of (obj fs) = container (count_fields fs)
declared_of (bool _) = unsized
declared_of (num _) = unsized
declared_of (float _) = unsized

-- What is read from the outside, and drawn at random, while one request is answered.
pub record Env : Type 0 where
  pub parse_int : List ℕ → Option ℤ
  pub loads : List ℕ → Option Json
  pub sha256 : List ℕ → ℕ
  pub new_id : ℕ
  pub tag : ℕ
  pub now : ℕ
