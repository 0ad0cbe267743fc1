-- ===== src/Groups/Wire/Fields.antt =====
-- The fields of a group message in i2pchat/groups/wire.py. An object is its look-up: the code reads it by key
-- alone.
use i2pchat.Prelude.{
  ℕ, Bool, true, false, Option, none, some, List, [], ◌∷◌, ◌++◌, leb, ◌==◌, if◌then◌else◌, is_empty,
  map, ℤ, pos, negsuc, get_or, ◌≡◌,
}
use i2pchat.Text.{Str, codes, str_eq}
use i2pchat.Text.Strip.{strip}
use i2pchat.Json.{Json, null, string, array, object, truthy, int_of, str_of, items}
use i2pchat.BlindBox.{◌>>=◌}
use i2pchat.Groups.Models.{GroupContentType, group_text, group_control}

abbrev pub Object : Type 0
Object = Str → Option Json

-- `value.replace("Z", "+00:00")`
unfoldable pub replace_z : Str → Str
replace_z [] = []
replace_z (c ∷ s) = let rest = replace_z s in if c == b'Z' then codes "+00:00" ++ rest else c ∷ rest

-- `datetime.isoformat` in UTC and `datetime.fromisoformat`, where a time that names no zone is in UTC
pub record TimeText : Type 0 where
  pub isoformat : ℕ → Str
  pub fromisoformat : Str → Option ℕ
  pub strip-isoformat : (t : ℕ) → strip (isoformat t) ≡ isoformat t
  pub isoformat_filled : (t : ℕ) → is_empty (isoformat t) ≡ false
  pub replace_z-isoformat : (t : ℕ) → replace_z (isoformat t) ≡ isoformat t
  pub fromisoformat-isoformat : (t : ℕ) → fromisoformat (isoformat t) ≡ some t

-- `_parse_datetime`
unfoldable pub parse_datetime : TimeText → Str → Option ℕ
parse_datetime time value = time.fromisoformat (replace_z value)

-- `payload.get(key)`
unfoldable pub field_or_null : Object → Str → Json
field_or_null get key = get_or null (get key)

-- `str(payload.get(key) or "").strip()`
unfoldable pub text_field : (Json → Str) → Object → Str → Str
text_field repr get key =
    let value = field_or_null get key in strip (if truthy value then str_of repr value else [])

-- `_required_text_field`
unfoldable pub required_text_field : (Json → Str) → Object → Str → Option Str
required_text_field repr get key =
    let value = text_field repr get key in if is_empty value then none else some value

-- `value < minimum` refused; no minimum is negative.
unfoldable pub at_least : ℕ → ℤ → Option ℕ
at_least minimum (pos n) = if leb minimum n then some n else none
at_least minimum (negsuc n) = none

-- `_required_int_field`
unfoldable pub required_int_field : ℕ → Object → Str → Option ℕ
required_int_field minimum get key = do value ← get key; n ← int_of value; at_least minimum n

-- `GroupContentType(…)`
unfoldable pub content_type_of : Str → Option GroupContentType
content_type_of s =
    if str_eq s (codes "GROUP_TEXT")
    then some group_text
    else if str_eq s (codes "GROUP_CONTROL")
    then some group_control
    else none

-- `str(content_type)`
unfoldable pub content_type_text : GroupContentType → Str
content_type_text group_text = codes "GROUP_TEXT"
content_type_text group_control = codes "GROUP_CONTROL"

-- The tests on the payload
unfoldable pub fits : GroupContentType → Json → Bool
fits group_text (string s) = true
fits group_control (object fs) = true
fits _ _ = false

-- `payload.get("members", [])`, which has to be a list, as texts
unfoldable pub member_texts : (Json → Str) → Object → Option (List Str)
member_texts repr get = elim (get (codes "members")) [
  | none ↦ some []
  | some (array js) ↦ some (map (str_of repr) (items js))
  | some _ ↦ none
]
