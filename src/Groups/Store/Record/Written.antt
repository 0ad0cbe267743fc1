-- ===== src/Groups/Store/Record/Written.antt =====
-- The files of the groups in i2pchat/storage/group_store.py, over the functions of Python's `json`.
use i2pchat.Prelude.{◌≡◌, refl, fun_ext, Option, none, some, ◌∷◌, map, length, ℤ}
use i2pchat.Text.{Str, codes, str_eq}
use i2pchat.Text.Case.{CaseMapping}
use i2pchat.Json.{Json, Fields, object, fields, from_fields, int_of}
use i2pchat.Dict.{Dict, lookup}
use i2pchat.BlindBox.{◌>>=◌}
use i2pchat.Groups.Store.Channel.{serialize_channel}
use i2pchat.Groups.Store.Conversation.{
  Channel, GroupRecord, StoredGroupConversation, serialize, saved_channel,
}
use i2pchat.Groups.Store.Files.{Bytes, Disk, JsonText, Crypto}
use i2pchat.Groups.Store.Operations.{
  Environment, found, save_group_conversation, load_group_conversation,
}
use i2pchat.Groups.Store.Stored.{IsStored, load-save}
use i2pchat.Groups.Wire.Fields.{Object, TimeText}
use i2pchat.Groups.Store.Record.Channels.{all_some, objects_of, int_in, as_object, channel_json}
use i2pchat.Groups.Store.Record.Writing.{
  entry_json, delivery_json, message_json, channel_or_null, record_fields,
}
use i2pchat.Groups.Store.Record.{
  entry_of_json, delivery_of_json, message_of_json, channel_in, next_in, record_of,
}
use i2pchat.Groups.Store.Record.RoundTrip.{
  all_some-map, texts_in-strings, state_read, entry_read, delivery_read, message_read, channel_read,
  objects_in-items,
}

-- `json.dumps` of an object, with its default order or with sorted keys and an indent, and `json.loads`; the
-- object is read with the same value at each key. Objects in it are compared without the order of their keys.
pub record JsonModule : Type 0 where
  pub dumps : Dict Json → Bytes
  pub dumps_sorted : Dict Json → Bytes
  pub loads : Bytes → Option Json
  pub loads-dumps :
      (d : Dict Json)
      → (fs : Fields) × (loads (dumps d) ≡ some (object fs))
        × ((k : Str) → lookup k (fields fs) ≡ lookup k d)
  pub loads-dumps_sorted :
      (d : Dict Json)
      → (fs : Fields) × (loads (dumps_sorted d) ≡ some (object fs))
        × ((k : Str) → lookup k (fields fs) ≡ lookup k d)
  pub dumps_sorted_brace : (d : Dict Json) → (rest : Bytes) × (dumps_sorted d ≡ b'{' ∷ rest)

module _ (repr : Json → Str) (time : TimeText) where
  history_read :
      (c : StoredGroupConversation)
      → all_some (entry_of_json repr time) (objects_of (map (entry_json time) c.history))
        ≡ some c.history
  unfolding entry_json objects_of
  history_read c =
      all_some-map (entry_of_json repr time) (entry_json time) c.history (λ x rest. refl)
        (entry_read repr time)

  deliveries_read :
      (c : StoredGroupConversation)
      → all_some
          (delivery_of_json repr time)
          (objects_of (map (delivery_json time) c.pending_deliveries))
        ≡ some c.pending_deliveries
  unfolding delivery_json objects_of
  deliveries_read c =
      all_some-map (delivery_of_json repr time) (delivery_json time) c.pending_deliveries
        (λ x rest. refl) (delivery_read repr time)

  messages_read :
      (c : StoredGroupConversation)
      → all_some
          (message_of_json repr time)
          (objects_of (map (message_json time) c.pending_group_blindbox_messages))
        ≡ some c.pending_group_blindbox_messages
  unfolding message_json objects_of
  messages_read c =
      all_some-map (message_of_json repr time) (message_json time) c.pending_group_blindbox_messages
        (λ x rest. refl) (message_read repr time)

  channel_in-saved :
      (get : Object) (channel : Option Channel)
      → get (codes "blindbox_channel") ≡ some (channel_or_null time (saved_channel channel))
      → channel_in repr time get ≡ some (saved_channel channel)
  unfolding channel_in channel_or_null channel_json from_fields serialize_channel
  channel_in-saved get none e = rw (e, channel_in) refl
  channel_in-saved get (some c) e = rw (e, channel_in) (rw (channel_read repr c) refl)

  -- The object that is written for a conversation, read by its keys
  record_read :
      (c : StoredGroupConversation)
      → record_of repr time (λ key. lookup key (record_fields time (serialize c)))
        ≡ some (serialize c)
  unfolding record_fields record_of serialize lookup str_eq int_in int_of next_in as_object
  record_read c =
      let get = λ (key : Str). lookup key (record_fields time (serialize c)) in
      rw
        (
          state_read repr time c.state,
          objects_in-items (entry_json time) get (codes "history") c.history refl,
          history_read c,
          texts_in-strings repr get (codes "seen_msg_ids") c.seen_msg_ids refl,
          objects_in-items (delivery_json time) get (codes "pending_deliveries")
              c.pending_deliveries refl,
          deliveries_read c,
          channel_in-saved get c.blindbox_channel refl,
          objects_in-items (message_json time) get (codes "pending_group_blindbox_messages")
              c.pending_group_blindbox_messages refl,
          messages_read c,
        )
        refl

  -- What the reading of a file makes of a value; the code reads an object by its keys.
  unfoldable pub record_of_json : Json → Option GroupRecord
  record_of_json (object fs) = record_of repr time (λ key. lookup key (fields fs))
  record_of_json _ = none

  pub read_object :
      (c : StoredGroupConversation) (j : Option Json) (fs : Fields)
      → j ≡ some (object fs)
      → ((k : Str) → lookup k (fields fs) ≡ lookup k (record_fields time (serialize c)))
      → (j >>= record_of_json) ≡ some (serialize c)
  unfolding record_of_json
  read_object c j fs e same = rw (e, fun_ext same) (record_read c)

  -- The files of a group, over `json`
  unfoldable pub record_text : JsonModule → JsonText
  record_text json = record {
    dumps = λ r. json.dumps (record_fields time r);
    dumps_sorted = λ r. json.dumps_sorted (record_fields time r);
    loads = λ raw. json.loads raw >>= record_of_json;
    loads-dumps = λ c.
        let d = record_fields time (serialize c) in
        let (fs, e, same) = json.loads-dumps d in
        read_object c (json.loads (json.dumps d)) fs e same;
    loads-dumps_sorted = λ c.
        let d = record_fields time (serialize c) in
        let (fs, e, same) = json.loads-dumps_sorted d in
        read_object c (json.loads (json.dumps_sorted d)) fs e same;
    dumps_sorted_brace = λ r. json.dumps_sorted_brace (record_fields time r);
  }

-- What the store of a profile depends on, over `json`
abbrev pub json_environment :
    CaseMapping → (Json → Str) → TimeText → JsonModule → Crypto → Str → Option Bytes → Environment
json_environment u repr time json crypto profile key = record {
  case = u;
  repr = repr;
  json = record_text repr time json;
  crypto = crypto;
  profile = profile;
  identity_key = key;
}

-- A conversation that its constructors would leave as it is, whose next sequence number is above its history and
-- whose remembered ids, at most 4096, cover it, is loaded as it was saved, field by field through the object of
-- its file, at any time, whatever was on the disk before, plain or encrypted; where the new salt has its size.
pub load-save_fields :
    (u : CaseMapping) (repr : Json → Str) (time : TimeText) (json : JsonModule) (crypto : Crypto)
    (profile : Str) (key : Option Bytes) (now : ℤ) (fresh : Bytes) (c : StoredGroupConversation)
    (disk : Disk)
    → IsStored u repr c
    → length fresh ≡ 32
    → let env = json_environment u repr time json crypto profile key in
      load_group_conversation env now c.state.group_id (save_group_conversation env fresh c disk)
      ≡ found c
load-save_fields u repr time json crypto profile key now fresh c disk ok size =
    load-save (json_environment u repr time json crypto profile key) now fresh c disk ok size
