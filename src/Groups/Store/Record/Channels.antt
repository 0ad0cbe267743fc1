-- ===== src/Groups/Store/Record/Channels.antt =====
-- How the object of a group file in i2pchat/storage/group_store.py is written and read field by field, and its
-- BlindBox channel.
use i2pchat.Prelude.{ℕ, Option, none, some, List, [], ◌∷◌, if◌then◌else◌, map, get_or, ℤ, pos}
use i2pchat.Text.{Str, codes}
use i2pchat.Json.{
  Json, null, int, string, array, object, items, from_items, fields, from_fields, truthy, int_of,
  str_of,
}
use i2pchat.Dict.{Dict, lookup, put, keys}
use i2pchat.BlindBox.{StateData, ◌>>=◌}
use i2pchat.Groups.Store.Channel.{PrevRoot, GroupBlindBoxChannel}
use i2pchat.Groups.Wire.Fields.{Object, field_or_null}

-- A character as a text, as Python iterates over a text
abbrev pub char_text : ℕ → Json
char_text c = string (c ∷ [])

-- `for x in value`; `none` is the `TypeError` of what cannot be iterated over.
unfoldable pub iterated : Json → Option (List Json)
iterated (array js) = some (items js)
iterated (string s) = some (map char_text s)
iterated (object fs) = some (map string (keys (fields fs)))
iterated _ = none

-- `tuple(f(x) for x in xs)`, where `f` may raise
unfoldable pub all_some : {A B : Type 0} → (A → Option B) → List A → Option (List B)
all_some f [] = some []
all_some f (x ∷ xs) = do y ← f x; ys ← all_some f xs; some (y ∷ ys)

-- `d.get(key, default)`, where the default can be iterated over and is empty
unfoldable pub iterated_in : Object → Str → Option (List Json)
iterated_in get key = elim (get key) [ none ↦ some [] | some j ↦ iterated j ]

-- Those of the items that are objects
unfoldable pub objects_of : List Json → List Object
objects_of [] = []
objects_of (object fs ∷ rest) = (λ key. lookup key (fields fs)) ∷ objects_of rest
objects_of (_ ∷ rest) = objects_of rest

unfoldable pub objects_in : Object → Str → Option (List Object)
objects_in get key = do js ← iterated_in get key; some (objects_of js)

-- `int(d.get(key, default))`
unfoldable pub int_in : Object → Str → ℤ → Option ℤ
int_in get key default = int_of (get_or (int default) (get key))

-- `list(texts)` where texts are written
unfoldable pub strings : List Str → Json
strings xs = array (from_items (map string xs))

-- `value` of a text that may be `None`
unfoldable pub optional : Option Str → Json
optional none = null
optional (some s) = string s

module _ (repr : Json → Str) where
  -- `tuple(str(x) for x in d.get(key, []))`
  unfoldable pub texts_in : Object → Str → Option (List Str)
  texts_in get key = do js ← iterated_in get key; some (map (str_of repr) js)

  -- `str(d.get(key, default))`
  unfoldable pub string_in : Object → Str → Str → Str
  string_in get key default = str_of repr (get_or (string default) (get key))

  -- `str(value or "") or None`, with a blank text for a value that is false but not `None`: the constructors
  -- make `None` of it.
  unfoldable pub text_or_none : Json → Option Str
  text_or_none null = none
  text_or_none j = some (if truthy j then str_of repr j else [])

-- `BlindBoxState.to_dict()`, with `None` where a key is missing
unfoldable pub number_or_null : Option ℤ → Json
number_or_null none = null
number_or_null (some z) = int z

unfoldable pub numbers_or_null : Option (List ℤ) → Json
numbers_or_null none = null
numbers_or_null (some zs) = array (from_items (map int zs))

unfoldable pub state_data_fields : StateData → Dict Json
state_data_fields s =
    (codes "version", optional s.version)
    ∷ (codes "send_index", number_or_null s.send_index)
    ∷ (codes "recv_base", number_or_null s.recv_base)
    ∷ (codes "recv_window", number_or_null s.recv_window)
    ∷ (codes "consumed_recv", numbers_or_null s.consumed_recv)
    ∷ (codes "updated_at", number_or_null s.updated_at)
    ∷ []

abbrev pub state_data_json : StateData → Json
state_data_json s = object (from_fields (state_data_fields s))

-- `int(data.get(key, …))`: a missing key is left to the default, and `None` raises.
unfoldable pub number_in : Object → Str → Option (Option ℤ)
number_in get key = elim (get key) [ none ↦ some none | some j ↦ do z ← int_of j; some (some z) ]

-- `{int(x) for x in data.get(key, [])}`, as a list
unfoldable pub numbers_in : Object → Str → Option (Option (List ℤ))
numbers_in get key = elim (get key) [
  | none ↦ some none
  | some j ↦ do js ← iterated j; zs ← all_some int_of js; some (some zs)
]

-- What is compared with the version: only a text can be equal to it.
unfoldable pub version_in : Object → Option Str
version_in get = elim (get (codes "version")) [ some (string s) ↦ some s | _ ↦ none ]

-- The keys that `BlindBoxState.from_dict` reads
unfoldable pub state_data_of : Object → Option StateData
state_data_of get = do
  send_index ← number_in get (codes "send_index")
  recv_base ← number_in get (codes "recv_base")
  recv_window ← number_in get (codes "recv_window")
  consumed_recv ← numbers_in get (codes "consumed_recv")
  updated_at ← number_in get (codes "updated_at")
  some (record {
    version = version_in get;
    send_index = send_index;
    recv_base = recv_base;
    recv_window = recv_window;
    consumed_recv = consumed_recv;
    updated_at = updated_at;
  })

-- An item of `prev_roots` as the constructor makes and reads it
unfoldable pub root_json : PrevRoot → Json
root_json r = object (
    from_fields (
      (codes "group_epoch", int r.group_epoch)
      ∷ (codes "root_epoch", int r.root_epoch)
      ∷ (codes "expires_at", int r.expires_at)
      ∷ (codes "secret_enc", string r.secret_enc)
      ∷ []))

unfoldable pub root_of : (Json → Str) → Object → Option PrevRoot
root_of repr get = do
  group_epoch ← int_in get (codes "group_epoch") (pos 0)
  root_epoch ← int_in get (codes "root_epoch") (pos 0)
  expires_at ← int_in get (codes "expires_at") (pos 0)
  some (record {
    group_epoch = group_epoch;
    root_epoch = root_epoch;
    expires_at = expires_at;
    secret_enc = get_or [] (text_or_none repr (field_or_null get (codes "secret_enc")));
  })

-- `_serialize_blindbox_channel`
unfoldable pub channel_json : GroupBlindBoxChannel StateData → Json
channel_json c = object (
    from_fields (
      (codes "channel_id", string c.channel_id)
      ∷ (codes "group_epoch", int c.group_epoch)
      ∷ (codes "state", state_data_json c.state)
      ∷ (codes "root_secret_enc", optional c.root_secret_enc)
      ∷ (codes "root_epoch", int c.root_epoch)
      ∷ (codes "root_created_at", int c.root_created_at)
      ∷ (codes "root_send_index_base", int c.root_send_index_base)
      ∷ (codes "pending_root_secret_enc", optional c.pending_root_secret_enc)
      ∷ (codes "pending_root_epoch", int c.pending_root_epoch)
      ∷ (codes "pending_root_created_at", int c.pending_root_created_at)
      ∷ (codes "pending_root_send_index_base", int c.pending_root_send_index_base)
      ∷ (codes "pending_root_target_members", strings c.pending_root_target_members)
      ∷ (codes "pending_root_acked_members", strings c.pending_root_acked_members)
      ∷ (codes "prev_roots", array (from_items (map root_json c.prev_roots)))
      ∷ []))

-- A pair of a key and a value, in what is iterated over; a list or an object is no key.
unfoldable pub pair_of : (Json → Str) → Json → Option (Str × Json)
pair_of repr j = do
  xs ← iterated j
  (elim xs [
    | k ∷ v ∷ [] ↦ elim k [ array js ↦ none | object fs ↦ none | key ↦ some (str_of repr key, v) ]
    | _ ↦ none
  ])

unfoldable pub put_all : List (Str × Json) → Dict Json → Dict Json
put_all [] d = d
put_all ((k, v) ∷ rest) d = put_all rest (put k v d)

-- `dict(value)`: of an object, or of a list of pairs; a key counts by its text.
unfoldable pub as_object : (Json → Str) → Json → Option (Dict Json)
as_object repr (object fs) = some (fields fs)
as_object repr j = do js ← iterated j; ps ← all_some (pair_of repr) js; some (put_all ps [])

-- `_deserialize_blindbox_channel`, before the constructor
unfoldable pub channel_of : (Json → Str) → Object → Option (GroupBlindBoxChannel StateData)
channel_of repr get = do
  group_epoch ← int_in get (codes "group_epoch") (pos 0)
  state_fields ← as_object repr (get_or (object (from_fields [])) (get (codes "state")))
  state ← state_data_of (λ key. lookup key state_fields)
  root_epoch ← int_in get (codes "root_epoch") (pos 0)
  root_created_at ← int_in get (codes "root_created_at") (pos 0)
  root_send_index_base ← int_in get (codes "root_send_index_base") (pos 0)
  pending_root_epoch ← int_in get (codes "pending_root_epoch") (pos 0)
  pending_root_created_at ← int_in get (codes "pending_root_created_at") (pos 0)
  pending_root_send_index_base ← int_in get (codes "pending_root_send_index_base") (pos 0)
  target_members ← texts_in repr get (codes "pending_root_target_members")
  acked_members ← texts_in repr get (codes "pending_root_acked_members")
  roots ← objects_in get (codes "prev_roots")
  prev_roots ← all_some (root_of repr) roots
  some (record {
    channel_id = string_in repr get (codes "channel_id") [];
    group_epoch = group_epoch;
    state = state;
    root_secret_enc = text_or_none repr (field_or_null get (codes "root_secret_enc"));
    root_epoch = root_epoch;
    root_created_at = root_created_at;
    root_send_index_base = root_send_index_base;
    pending_root_secret_enc =
        text_or_none repr (field_or_null get (codes "pending_root_secret_enc"));
    pending_root_epoch = pending_root_epoch;
    pending_root_created_at = pending_root_created_at;
    pending_root_send_index_base = pending_root_send_index_base;
    pending_root_target_members = target_members;
    pending_root_acked_members = acked_members;
    prev_roots = prev_roots;
  })
