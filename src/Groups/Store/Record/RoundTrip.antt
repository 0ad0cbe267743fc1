-- ===== src/Groups/Store/Record/RoundTrip.antt =====
-- The object of a group file in i2pchat/storage/group_store.py is read as it was written.
use i2pchat.Prelude.{ℕ, ◌≡◌, refl, ap, ◌∙◌, Option, none, some, List, [], ◌∷◌, map, get_or, ℤ}
use i2pchat.Text.{Str, codes, str_eq}
use i2pchat.Json.{
  Json, int, string, array, object, from_items, fields, from_fields, truthy, int_of, str_of,
  items-from_items, fields-from_fields,
}
use i2pchat.Dict.{Dict, lookup}
use i2pchat.BlindBox.{BlindBoxState, to_dict}
use i2pchat.Groups.Models.{GroupState, GroupContentType, group_text, group_control}
use i2pchat.Groups.Store.Models.{
  at_least_zero, GroupHistoryEntry, GroupPendingDelivery, GroupPendingBlindBoxMessage,
}
use i2pchat.Groups.Store.Channel.{PrevRoot, GroupBlindBoxChannel, serialize_channel, with_state}
use i2pchat.Groups.Wire.Fields.{
  Object, TimeText, parse_datetime, field_or_null, content_type_of, content_type_text,
}
use i2pchat.Groups.Store.Record.Channels.{
  iterated, all_some, iterated_in, objects_of, objects_in, strings, texts_in, string_in, int_in,
  text_or_none, optional, as_object, root_json, root_of, channel_json, channel_of, state_data_json,
  state_data_fields, state_data_of, number_or_null, numbers_or_null, number_in, numbers_in,
  version_in,
}
use i2pchat.Groups.Store.Record.Writing.{
  text_fields, state_fields, state_json, entry_json, delivery_json, message_json,
}
use i2pchat.Groups.Store.Record.{
  texts_of, time_in, type_in, dict_in, state_of_json, entry_of_json, delivery_of_json,
  message_of_json,
}

-- An object by its keys
abbrev pub get_of : Json → Object
get_of (object fs) = λ key. lookup key (fields fs)
get_of _ = λ key. none

pub all_some-map :
    {A : Type 0} (f : Object → Option A) (g : A → Json) (xs : List A)
    → ((x : A) (rest : List Json) → objects_of (g x ∷ rest) ≡ get_of (g x) ∷ objects_of rest)
    → ((x : A) → f (get_of (g x)) ≡ some x)
    → all_some f (objects_of (map g xs)) ≡ some xs
unfolding all_some objects_of
all_some-map f g [] h k = refl
all_some-map f g (x ∷ xs) h k =
    ap (all_some f) (h x (map g xs)) ∙ rw (k x, all_some-map f g xs h k) refl

ints-read : (zs : List ℤ) → all_some int_of (map int zs) ≡ some zs
unfolding all_some int_of
ints-read [] = refl
ints-read (z ∷ zs) = rw (ints-read zs) refl

module _ (repr : Json → Str) where
  texts-read : (xs : List Str) → map (str_of repr) (map string xs) ≡ xs
  unfolding str_of
  texts-read [] = refl
  texts-read (x ∷ xs) = ap (◌∷◌ x) (texts-read xs)

  pub texts_in-strings :
      (get : Object) (key : Str) (xs : List Str)
      → get key ≡ some (strings xs)
      → texts_in repr get key ≡ some xs
  unfolding texts_in iterated_in strings iterated
  texts_in-strings get key xs e =
      rw (e, texts_in, iterated_in) (rw items-from_items (ap some (texts-read xs)))

  text_or_none-optional : (o : Option Str) → text_or_none repr (optional o) ≡ o
  unfolding text_or_none optional truthy str_of
  text_or_none-optional none = refl
  text_or_none-optional (some []) = refl
  text_or_none-optional (some (c ∷ s)) = refl

  texts_of-fields : (d : Dict Str) → texts_of repr (text_fields d) ≡ d
  unfolding texts_of text_fields str_of
  texts_of-fields [] = refl
  texts_of-fields ((k, v) ∷ d) = ap (◌∷◌ (k, v)) (texts_of-fields d)

module _ (repr : Json → Str) (time : TimeText) where
  parse-iso : (t : ℕ) → parse_datetime time (time.isoformat t) ≡ some t
  unfolding parse_datetime
  parse-iso t = rw (time.replace_z-isoformat t, parse_datetime) (time.fromisoformat-isoformat t)

  time_in-iso :
      (get : Object) (key : Str) (t : ℕ)
      → get key ≡ some (string (time.isoformat t))
      → time_in repr time get key ≡ some t
  unfolding time_in str_of
  time_in-iso get key t e = rw e (parse-iso t)

  type_in-text :
      (get : Object) (c : GroupContentType)
      → get (codes "content_type") ≡ some (string (content_type_text c))
      → type_in repr time get ≡ some c
  unfolding type_in str_of content_type_of content_type_text str_eq
  type_in-text get group_text e = rw e refl
  type_in-text get group_control e = rw e refl

  dict_in-fields :
      (get : Object) (key : Str) (d : Dict Str)
      → get key ≡ some (object (from_fields (text_fields d)))
      → dict_in repr time get key ≡ some d
  unfolding dict_in as_object
  dict_in-fields get key d e = rw (e, fields-from_fields) (ap some (texts_of-fields repr d))

  pub state_read : (s : GroupState) → state_of_json repr time (get_of (state_json time s)) ≡ some s
  unfolding state_fields state_of_json lookup str_eq fields from_fields field_or_null int_in int_of
      str_of at_least_zero
  state_read s =
      let get = get_of (state_json time s) in
      rw
        (
          texts_in-strings repr get (codes "members") s.members refl,
          time_in-iso get (codes "created_at") s.created_at refl,
          time_in-iso get (codes "updated_at") s.updated_at refl,
          text_or_none-optional repr s.title,
        )
        refl

  pub entry_read :
      (e : GroupHistoryEntry) → entry_of_json repr time (get_of (entry_json time e)) ≡ some e
  unfolding entry_json entry_of_json lookup str_eq fields from_fields field_or_null int_in int_of
      string_in str_of
  entry_read e =
      let get = get_of (entry_json time e) in
      rw
        (
          type_in-text get e.content_type refl,
          time_in-iso get (codes "created_at") e.created_at refl,
          dict_in-fields get (codes "delivery_results") e.delivery_results refl,
          dict_in-fields get (codes "delivery_reasons") e.delivery_reasons refl,
          text_or_none-optional repr e.msg_id,
          text_or_none-optional repr e.source_peer,
        )
        refl

  pub delivery_read :
      (d : GroupPendingDelivery)
      → delivery_of_json repr time (get_of (delivery_json time d)) ≡ some d
  unfolding delivery_json delivery_of_json lookup str_eq fields from_fields field_or_null int_in
      int_of string_in str_of
  delivery_read d =
      let get = get_of (delivery_json time d) in
      rw
        (
          texts_in-strings repr get (codes "group_members") d.group_members refl,
          type_in-text get d.content_type refl,
          time_in-iso get (codes "created_at") d.created_at refl,
          text_or_none-optional repr d.group_title,
        )
        refl

  pub message_read :
      (m : GroupPendingBlindBoxMessage)
      → message_of_json repr time (get_of (message_json time m)) ≡ some m
  unfolding message_json message_of_json lookup str_eq fields from_fields field_or_null int_in
      int_of string_in str_of
  message_read m =
      let get = get_of (message_json time m) in
      rw
        (
          texts_in-strings repr get (codes "group_members") m.group_members refl,
          type_in-text get m.content_type refl,
          time_in-iso get (codes "created_at") m.created_at refl,
          text_or_none-optional repr m.group_title,
        )
        refl

module _ (repr : Json → Str) where
  text_kept : (s : Str) → get_or [] (text_or_none repr (string s)) ≡ s
  unfolding optional
  text_kept s = ap (get_or []) (text_or_none-optional repr (some s))

  root_read : (r : PrevRoot) → root_of repr (get_of (root_json r)) ≡ some r
  unfolding root_json root_of lookup str_eq fields from_fields field_or_null int_in int_of
  root_read r = rw (text_kept r.secret_enc) refl

  roots_read :
      (rs : List PrevRoot) → all_some (root_of repr) (objects_of (map root_json rs)) ≡ some rs
  unfolding root_json objects_of
  roots_read rs = all_some-map (root_of repr) root_json rs (λ x rest. refl) root_read

-- The objects of a list that was written
pub objects_in-items :
    {A : Type 0} (g : A → Json) (get : Object) (key : Str) (xs : List A)
    → get key ≡ some (array (from_items (map g xs)))
    → objects_in get key ≡ some (objects_of (map g xs))
unfolding objects_in iterated_in iterated
objects_in-items g get key xs e = rw (e, objects_in, iterated_in) (rw items-from_items refl)

data_read :
    (s : BlindBoxState) → state_data_of (get_of (state_data_json (to_dict s))) ≡ some (to_dict s)
unfolding state_data_fields state_data_of lookup str_eq fields from_fields to_dict number_or_null
    numbers_or_null number_in numbers_in version_in optional int_of iterated
data_read s = rw (items-from_items, ints-read) refl

module _ (repr : Json → Str) where
  pub channel_read :
      (c : GroupBlindBoxChannel BlindBoxState)
      → channel_of repr (get_of (channel_json (serialize_channel c))) ≡ some (serialize_channel c)
  unfolding channel_json channel_of serialize_channel with_state lookup str_eq fields from_fields
      field_or_null int_in int_of string_in str_of as_object
  channel_read c =
      let get = get_of (channel_json (serialize_channel c)) in
      rw
        (
          data_read c.state,
          texts_in-strings repr get (codes "pending_root_target_members")
              c.pending_root_target_members refl,
          texts_in-strings repr get (codes "pending_root_acked_members")
              c.pending_root_acked_members refl,
          objects_in-items root_json get (codes "prev_roots") c.prev_roots refl,
          roots_read repr c.prev_roots,
          text_or_none-optional repr c.root_secret_enc,
          text_or_none-optional repr c.pending_root_secret_enc,
        )
        refl
