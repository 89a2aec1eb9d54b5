-- ===== src/Json.antt =====
-- The values that Python's `json.loads` returns, with what the program does to them: `or`, `.get`,
-- `int` and `isinstance(_, str)`. JSON's null is `None`, which is also what `.get` gives for a
-- missing key. A dict is an association list.
use ars_solana.Prelude.{
  String, Bool, true, false, not, ℤ, pos, ◌==ℤ◌, str_eq, ◌<+>◌, if◌then◌else◌, Result, ok, raise,
  ok-injective, ◌≡◌, refl, attribute_error, type_error, value_error, overflow_error,
}

-- What a float is without its fraction; `json.loads` accepts NaN and Infinity.
pub data Truncated : Type 0 where
  whole : ℤ → Truncated
  infinite not_a_number : Truncated

mutual
  pub data Json : Type 0 where
    null : Json
    boolean : Bool → Json
    int : ℤ → Json
    -- of a float, whether it is zero, and its whole part
    float : (is_zero : Bool) → (truncated : Truncated) → Json
    string : String → Json
    array : Items → Json
    object : Fields → Json

  pub data Items : Type 0 where
    nil : Items
    cons : Json → Items → Items

  pub data Fields : Type 0 where
    end : Fields
    field : String → Json → Fields → Fields

-- `bool(v)`
abbrev pub truthy : Json → Bool
truthy null = false
truthy (boolean b) = b
truthy (int n) = not (n ==ℤ pos 0)
truthy (float is_zero truncated) = not is_zero
truthy (string s) = not (str_eq s "")
truthy (array nil) = false
truthy (array (cons v vs)) = true
truthy (object end) = false
truthy (object (field k v fs)) = true

-- `v or default`
abbrev pub or_default : Json → Json → Json
or_default v default = if truthy v then v else default

-- The value of a key of a dict, or `None`.
unfoldable pub lookup : String → Fields → Json
lookup key end = null
lookup key (field k v fs) = if str_eq k key then v else lookup key fs

abbrev class_of : Json → String
class_of null = "NoneType"
class_of (boolean b) = "bool"
class_of (int n) = "int"
class_of (float z t) = "float"
class_of (string s) = "str"
class_of (array vs) = "list"
class_of (object fs) = "dict"

-- `v.get(key)`: only a dict has that method.
unfoldable pub get : Json → String → Result Json
unfolding lookup
get (object fs) key = ok (lookup key fs)
get v key = raise (attribute_error ("'" <+> class_of v <+> "' object has no attribute 'get'"))

abbrev pub int_of_bool : Bool → ℤ
int_of_bool true = pos 1
int_of_bool false = pos 0

-- `int(v)`, over what `int` makes of a text, which the program never looks into.
abbrev pub to_int : (String → Result ℤ) → Json → Result ℤ
to_int parse (boolean b) = ok (int_of_bool b)
to_int parse (int n) = ok n
to_int parse (float z (whole n)) = ok n
to_int parse (float z infinite) = raise (overflow_error "cannot convert float infinity to integer")
to_int parse (float z not_a_number) = raise (value_error "cannot convert float NaN to integer")
to_int parse (string s) = parse s
to_int parse v = raise (
    type_error (
      "int() argument must be a string, a bytes-like object or a real number, not '"
      <+> class_of v
      <+> "'"))

-- The value is a dict.
abbrev pub IsObject : Json → Type 0
IsObject (object fs) = Unit {0}
IsObject _ = ⊥

-- A `.get` that returned was a dict's.
pub got :
    (v : Json) (key : String) {w : Json}
    → get v key ≡ ok w
    → (fields : Fields) × (v ≡ object fields) × (lookup key fields ≡ w)
unfolding get
got (object fields) key h = (fields, refl, ok-injective h)
got null key h = cc
got (boolean b) key h = cc
got (int n) key h = cc
got (float z t) key h = cc
got (string t) key h = cc
got (array vs) key h = cc
