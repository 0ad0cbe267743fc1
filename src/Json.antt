-- ===== src/Json.antt =====
-- The values that Python's `json` reads and writes, and what the program does with one: `str`, `int`,
-- truth. The text of a value that is no string is a parameter.
use i2pchat.Prelude.{
  ◌≡◌, refl, ap, Bool, true, false, not, Option, none, some, List, [], ◌∷◌, ◌==◌, is_empty, ℤ, pos,
  negsuc,
}
use i2pchat.Text.{Str}
use i2pchat.Text.Order.{parse_int}
use i2pchat.Dict.{Dict, lookup}

-- A number with a fraction: whether it is not 0, its `int`, which infinity has not, and its text
pub record PyFloat : Type 0 where
  pub nonzero : Bool
  pub whole : Option ℤ
  pub text : Str

mutual
  pub data Json : Type 0 where
    null : Json
    boolean : Bool → Json
    int : ℤ → Json
    float : PyFloat → Json
    string : Str → Json
    array : Jsons → Json
    object : Fields → Json

  pub data Jsons : Type 0 where
    no_items : Jsons
    item : Json → Jsons → Jsons

  pub data Fields : Type 0 where
    no_fields : Fields
    field : Str → Json → Fields → Fields

unfoldable pub items : Jsons → List Json
items no_items = []
items (item j rest) = j ∷ items rest

unfoldable pub from_items : List Json → Jsons
from_items [] = no_items
from_items (j ∷ rest) = item j (from_items rest)

unfoldable pub fields : Fields → Dict Json
fields no_fields = []
fields (field k j rest) = (k, j) ∷ fields rest

unfoldable pub from_fields : Dict Json → Fields
from_fields [] = no_fields
from_fields ((k, j) ∷ rest) = field k j (from_fields rest)

-- `bool(value)`
unfoldable pub truthy : Json → Bool
truthy null = false
truthy (boolean b) = b
truthy (int (pos n)) = not (n == 0)
truthy (int (negsuc n)) = true
truthy (float x) = x.nonzero
truthy (string s) = not (is_empty s)
truthy (array no_items) = false
truthy (array (item j rest)) = true
truthy (object no_fields) = false
truthy (object (field k j rest)) = true

-- `int(value)`; `none` is an exception.
unfoldable pub int_of : Json → Option ℤ
int_of (boolean true) = some (pos 1)
int_of (boolean false) = some (pos 0)
int_of (int z) = some z
int_of (float x) = x.whole
int_of (string s) = parse_int s
int_of _ = none

-- `str(value)`
unfoldable pub str_of : (Json → Str) → Json → Str
str_of repr (string s) = s
str_of repr j = repr j

-- `d.get(key)`, where a missing key is `None`
unfoldable pub get : Str → Dict Json → Json
get key d = elim (lookup key d) [ none ↦ null | some j ↦ j ]

pub items-from_items : (js : List Json) → items (from_items js) ≡ js
unfolding items from_items
items-from_items [] = refl
items-from_items (j ∷ js) = ap (◌∷◌ j) (items-from_items js)

pub fields-from_fields : (d : Dict Json) → fields (from_fields d) ≡ d
unfolding fields from_fields
fields-from_fields [] = refl
fields-from_fields ((k, j) ∷ d) = ap (◌∷◌ (k, j)) (fields-from_fields d)
