-- ===== src/Groups/Store/Record.antt =====
-- The object of a group file in i2pchat/storage/group_store.py: `_serialize_*` and `_deserialize_*`, and the
-- object that `save_group_conversation` makes and `load_group_conversation` reads. What a constructor strips or
-- clamps is left to it; it comes after the reading.
pub mod Channels
pub mod Writing
pub mod RoundTrip
pub mod Written
use i2pchat.Prelude.{ℕ, Option, none, some, List, [], ◌∷◌, ◌++◌, if◌then◌else◌, map, get_or, ℤ, pos}
use i2pchat.Text.{Str, codes}
use i2pchat.Json.{
  Json, null, boolean, int, float, string, array, object, items, from_items, fields, from_fields,
  field, truthy, int_of, str_of,
}
use i2pchat.Dict.{Dict, lookup, put, keys}
use i2pchat.BlindBox.{StateData, ◌>>=◌}
use i2pchat.Groups.Store.Channel.{GroupBlindBoxChannel}
use i2pchat.Groups.Models.{GroupState, GroupContentType}
use i2pchat.Groups.Store.Models.{
  at_least_zero, GroupHistoryEntry, GroupPendingDelivery, GroupPendingBlindBoxMessage,
}
use i2pchat.Groups.Store.Conversation.{GroupRecord}
use i2pchat.Groups.Wire.Fields.{
  Object, TimeText, parse_datetime, field_or_null, content_type_of, content_type_text,
}
use i2pchat.Groups.Store.Record.Channels.{
  iterated, all_some, objects_in, strings, texts_in, string_in, int_in, text_or_none, optional,
  as_object, channel_json, channel_of,
}

-- `{str(key): str(value) …}`
unfoldable pub texts_of : (Json → Str) → Dict Json → Dict Str
texts_of repr [] = []
texts_of repr ((k, v) ∷ d) = (k, str_of repr v) ∷ texts_of repr d

module _ (repr : Json → Str) (time : TimeText) where
  -- `_from_iso8601(str(data[key]))`
  unfoldable pub time_in : Object → Str → Option ℕ
  time_in get key = do j ← get key; parse_datetime time (str_of repr j)

  -- `GroupContentType(str(data["content_type"]))`
  unfoldable pub type_in : Object → Option GroupContentType
  type_in get = do j ← get (codes "content_type"); content_type_of (str_of repr j)

  -- `{str(key): str(value) for key, value in dict(data.get(key, {})).items()}`
  unfoldable pub dict_in : Object → Str → Option (Dict Str)
  dict_in get key = do
    d ← as_object repr (get_or (object (from_fields [])) (get key))
    some (texts_of repr d)

  -- `_deserialize_state`, before the constructor; no epoch is negative.
  unfoldable pub state_of_json : Object → Option GroupState
  state_of_json get = do
    group_id ← get (codes "group_id")
    epoch ← int_in get (codes "epoch") (pos 0)
    members ← texts_in repr get (codes "members")
    created_at ← time_in get (codes "created_at")
    updated_at ← time_in get (codes "updated_at")
    some (record {
      group_id = str_of repr group_id;
      epoch = at_least_zero epoch;
      members = members;
      title = text_or_none repr (field_or_null get (codes "title"));
      created_at = created_at;
      updated_at = updated_at;
    })

  -- `_deserialize_entry`, before the constructor
  unfoldable pub entry_of_json : Object → Option GroupHistoryEntry
  entry_of_json get = do
    content_type ← type_in get
    group_seq ← int_in get (codes "group_seq") (pos 0)
    epoch ← int_in get (codes "epoch") (pos 0)
    created_at ← time_in get (codes "created_at")
    delivery_results ← dict_in get (codes "delivery_results")
    delivery_reasons ← dict_in get (codes "delivery_reasons")
    some (record {
      kind = string_in repr get (codes "kind") (codes "peer");
      sender_id = string_in repr get (codes "sender_id") [];
      content_type = content_type;
      text = string_in repr get (codes "text") [];
      payload = field_or_null get (codes "payload");
      msg_id = text_or_none repr (field_or_null get (codes "msg_id"));
      group_seq = group_seq;
      epoch = epoch;
      created_at = created_at;
      source_peer = text_or_none repr (field_or_null get (codes "source_peer"));
      delivery_results = delivery_results;
      delivery_reasons = delivery_reasons;
    })

  -- `_deserialize_pending_delivery`, before the constructor
  unfoldable pub delivery_of_json : Object → Option GroupPendingDelivery
  delivery_of_json get = do
    members ← texts_in repr get (codes "group_members")
    group_seq ← int_in get (codes "group_seq") (pos 0)
    epoch ← int_in get (codes "epoch") (pos 0)
    content_type ← type_in get
    created_at ← time_in get (codes "created_at")
    some (record {
      group_id = string_in repr get (codes "group_id") [];
      group_title = text_or_none repr (field_or_null get (codes "group_title"));
      group_members = members;
      sender_id = string_in repr get (codes "sender_id") [];
      recipient_id = string_in repr get (codes "recipient_id") [];
      delivery_id = string_in repr get (codes "delivery_id") [];
      msg_id = string_in repr get (codes "msg_id") [];
      group_seq = group_seq;
      epoch = epoch;
      content_type = content_type;
      payload = field_or_null get (codes "payload");
      created_at = created_at;
    })

  -- `_deserialize_pending_group_blindbox_message`, before the constructor
  unfoldable pub message_of_json : Object → Option GroupPendingBlindBoxMessage
  message_of_json get = do
    members ← texts_in repr get (codes "group_members")
    group_seq ← int_in get (codes "group_seq") (pos 0)
    epoch ← int_in get (codes "epoch") (pos 0)
    content_type ← type_in get
    created_at ← time_in get (codes "created_at")
    some (record {
      group_id = string_in repr get (codes "group_id") [];
      group_title = text_or_none repr (field_or_null get (codes "group_title"));
      group_members = members;
      sender_id = string_in repr get (codes "sender_id") [];
      msg_id = string_in repr get (codes "msg_id") [];
      group_seq = group_seq;
      epoch = epoch;
      content_type = content_type;
      payload = field_or_null get (codes "payload");
      created_at = created_at;
    })

  -- A channel is read from an object that is not empty.
  unfoldable pub channel_in : Object → Option (Option (GroupBlindBoxChannel StateData))
  channel_in get = elim (get (codes "blindbox_channel")) [
    | some (object (field k j rest)) ↦ do
      c ← channel_of repr (λ key. lookup key (fields (field k j rest)))
      some (some c)
    | _ ↦ some none
  ]

  -- `max(1, payload.get("next_group_seq", 1))` takes numbers only.
  unfoldable pub next_in : Object → Option ℤ
  next_in get = elim (get_or (int (pos 1)) (get (codes "next_group_seq"))) [
    | string s ↦ none
    | j ↦ int_of j
  ]

  -- What `load_group_conversation` reads of an object
  unfoldable pub record_of : Object → Option GroupRecord
  record_of get = do
    version ← int_in get (codes "version") (pos 0)
    state_value ← get (codes "state")
    state_fields ← as_object repr state_value
    state ← state_of_json (λ key. lookup key state_fields)
    entries ← objects_in get (codes "history")
    history ← all_some entry_of_json entries
    seen_msg_ids ← texts_in repr get (codes "seen_msg_ids")
    deliveries ← objects_in get (codes "pending_deliveries")
    pending_deliveries ← all_some delivery_of_json deliveries
    blindbox_channel ← channel_in get
    messages ← objects_in get (codes "pending_group_blindbox_messages")
    pending_messages ← all_some message_of_json messages
    next_group_seq ← next_in get
    some (record {
      version = version;
      state = state;
      next_group_seq = next_group_seq;
      history = history;
      seen_msg_ids = seen_msg_ids;
      pending_deliveries = pending_deliveries;
      blindbox_channel = blindbox_channel;
      pending_group_blindbox_messages = pending_messages;
    })
