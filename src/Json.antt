-- ===== src/Json.antt =====
-- include/yyjson.h: `YYJson`, the text of JSON members, and what the code reads of a json-c tree. The
-- parser of json-c is a parameter: the function from a text to the tree, `none` on an error.
use Prim.Native.Char.{code}
use text.Mathlib.Text.{◌==◌ as str_eq}
use mms_svr.Prelude.{
  ℕ, zero, suc, ◌+◌, ◌-◌, ◌/◌, ◌%◌, ◌^◌, List, [], ◌∷◌, ◌++◌, Option, none, some, Bool, true, false,
  ◌&&◌, ltb, ◌==◌, if◌then◌else◌, String,
}
use mms_svr.Prelude.Int.{ℤ, pos, negsuc}

-- The bytes of an ASCII literal.
abbrev pub codes : String → List ℕ
codes String.[] = []
codes (String.◌∷◌ c s) = code c ∷ codes s

-- The trees of json-c, by `enum json_type`. A string is what `json_object_get_string` points to.
mutual
  pub data Json : Type 0 where
    null : Json
    boolean : Bool → Json
    double : Json
    int : ℤ → Json
    object : Members → Json
    array : Json
    string : List ℕ → Json

  pub data Members : Type 0 where
    end : Members
    member : String → Json → Members → Members

-- `json_object_get_type`, with the numbers of the enumeration.
abbrev pub json_type_boolean : ℕ
json_type_boolean = 1

abbrev pub json_type_int : ℕ
json_type_int = 3

abbrev pub json_type_string : ℕ
json_type_string = 6

abbrev pub type_of : Json → ℕ
type_of null = 0
type_of (boolean b) = json_type_boolean
type_of double = 2
type_of (int z) = json_type_int
type_of (object ms) = 4
type_of array = 5
type_of (string s) = json_type_string

-- `json_object_get_int` as the bits of a 32-bit integer: a value out of range is clamped.
abbrev pub get_int : Json → ℕ
get_int (int (pos n)) = if ltb n (2 ^ 31) then n else 2 ^ 31 - 1
get_int (int (negsuc n)) = if ltb n (2 ^ 31) then 2 ^ 32 - 1 - n else 2 ^ 31
get_int _ = 0

abbrev pub get_string : Json → List ℕ
get_string (string s) = s
get_string _ = []

abbrev pub get_boolean : Json → Bool
get_boolean (boolean b) = b
get_boolean _ = false

-- `json_object_object_get`: a member that is null is the NULL pointer.
abbrev pub not_null : Json → Option Json
not_null null = none
not_null j = some j

abbrev pub find_member : String → Members → Option Json
find_member key end = none
find_member key (member k v ms) = if str_eq k key then not_null v else find_member key ms

abbrev pub object_get : Json → String → Option Json
object_get (object ms) key = find_member key ms
object_get _ key = none

-- `is_key(a, t)` of jsonprotocol.h
abbrev pub is_key : String → Json → String → ℕ → Bool
is_key key val a t = str_eq key a && type_of val == t

-- `sprintf("%u")` by the digits of a number below ten to the power of the fuel.
unfoldable pub decimal : ℕ → ℕ → List ℕ
decimal zero n = []
decimal (suc f) n =
    let front = decimal f (n / 10) in
    if ltb n 10 then (48 + n) ∷ [] else front ++ ((48 + n % 10) ∷ [])

unfoldable pub tos_uint : ℕ → List ℕ
unfolding decimal
tos_uint i = decimal 10 i

-- `sprintf("%d")` of the 32-bit integer with the bits `i`.
unfoldable pub tos_int : ℕ → List ℕ
unfolding tos_uint
tos_int i = if ltb i (2 ^ 31) then tos_uint i else b'-' ∷ tos_uint (2 ^ 32 - i)

abbrev pub tos_bool : Bool → List ℕ
tos_bool true = codes "true"
tos_bool false = codes "false"

-- `"cmd":` in front of a value.
abbrev pub quoted : List ℕ → List ℕ
quoted s = b'"' ∷ (s ++ (b'"' ∷ []))

abbrev pub to_cmd_string : String → List ℕ → List ℕ
to_cmd_string cmd val = quoted (codes cmd) ++ (b':' ∷ quoted val)

abbrev pub to_cmd_int : String → ℕ → List ℕ
to_cmd_int cmd i = quoted (codes cmd) ++ (b':' ∷ tos_int i)

abbrev pub to_cmd_uint : String → ℕ → List ℕ
to_cmd_uint cmd i = quoted (codes cmd) ++ (b':' ∷ tos_uint i)

abbrev pub to_cmd_bool : String → Bool → List ℕ
to_cmd_bool cmd b = quoted (codes cmd) ++ (b':' ∷ tos_bool b)
