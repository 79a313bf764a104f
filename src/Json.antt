-- ===== src/Json.antt =====
-- The values that Python's `json.loads` gives, as the programs test and take them apart. A dict
-- has each key once.
use qwen_3_8_evals.Prelude.{String, Bool, Option, none, some, str_eq, if◌then◌else◌}
use qwen_3_8_evals.Prelude.Int.{ℤ}

mutual
  pub data Json : Type 0 where
    null : Json
    bool : Bool → Json
    num : ℤ → Json
    float : String → Json
    str : String → Json
    arr : Items → Json
    obj : Fields → Json

  pub data Items : Type 0 where
    nil : Items
    cons : Json → Items → Items

  pub data Fields : Type 0 where
    end : Fields
    field : String → Json → Fields → Fields

-- d.get(key), where a missing key gives None.
unfoldable pub get : String → Fields → Json
get key end = null
get key (field k v rest) = if str_eq k key then v else get key rest

-- `isinstance(v, str)` and a test of the text.
abbrev pub string_if : (String → Bool) → Json → Option String
string_if p (str s) = if p s then some s else none
string_if p null = none
string_if p (bool _) = none
string_if p (num _) = none
string_if p (float _) = none
string_if p (arr _) = none
string_if p (obj _) = none

-- `isinstance(v, int) and not isinstance(v, bool)`
abbrev pub int_of : Json → Option ℤ
int_of (num n) = some n
int_of null = none
int_of (bool _) = none
int_of (float _) = none
int_of (str _) = none
int_of (arr _) = none
int_of (obj _) = none

-- `isinstance(v, dict)`
abbrev pub fields_of : Json → Option Fields
fields_of (obj fs) = some fs
fields_of null = none
fields_of (bool _) = none
fields_of (num _) = none
fields_of (float _) = none
fields_of (str _) = none
fields_of (arr _) = none

-- `isinstance(v, list)`
abbrev pub items_of : Json → Option Items
items_of (arr xs) = some xs
items_of null = none
items_of (bool _) = none
items_of (num _) = none
items_of (float _) = none
items_of (str _) = none
items_of (obj _) = none
