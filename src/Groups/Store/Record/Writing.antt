-- ===== src/Groups/Store/Record/Writing.antt =====
-- The object that `save_group_conversation` of i2pchat/storage/group_store.py writes, with `_serialize_*`.
use i2pchat.Prelude.{Option, none, some, [], ◌∷◌, map, pos}
use i2pchat.Text.{Str, codes}
use i2pchat.Json.{Json, null, int, string, array, object, from_items, from_fields}
use i2pchat.Dict.{Dict}
use i2pchat.BlindBox.{StateData}
use i2pchat.Groups.Store.Channel.{GroupBlindBoxChannel}
use i2pchat.Groups.Models.{GroupState}
use i2pchat.Groups.Store.Models.{
  GroupHistoryEntry, GroupPendingDelivery, GroupPendingBlindBoxMessage,
}
use i2pchat.Groups.Store.Conversation.{GroupRecord}
use i2pchat.Groups.Wire.Fields.{TimeText, content_type_text}
use i2pchat.Groups.Store.Record.Channels.{strings, optional, channel_json}

-- `{key: value}` of texts
unfoldable pub text_fields : Dict Str → Dict Json
text_fields [] = []
text_fields ((k, v) ∷ d) = (k, string v) ∷ text_fields d

module _ (time : TimeText) where
  -- `_serialize_state`; a time is written by `_to_iso8601`.
  unfoldable pub state_fields : GroupState → Dict Json
  state_fields s =
      (codes "group_id", string s.group_id)
      ∷ (codes "title", optional s.title)
      ∷ (codes "epoch", int (pos s.epoch))
      ∷ (codes "members", strings s.members)
      ∷ (codes "created_at", string (time.isoformat s.created_at))
      ∷ (codes "updated_at", string (time.isoformat s.updated_at))
      ∷ []

  abbrev pub state_json : GroupState → Json
  state_json s = object (from_fields (state_fields s))

  -- `_serialize_entry`
  unfoldable pub entry_json : GroupHistoryEntry → Json
  entry_json e = object (
      from_fields (
        (codes "kind", string e.kind)
        ∷ (codes "sender_id", string e.sender_id)
        ∷ (codes "content_type", string (content_type_text e.content_type))
        ∷ (codes "text", string e.text)
        ∷ (codes "payload", e.payload)
        ∷ (codes "msg_id", optional e.msg_id)
        ∷ (codes "group_seq", int e.group_seq)
        ∷ (codes "epoch", int e.epoch)
        ∷ (codes "created_at", string (time.isoformat e.created_at))
        ∷ (codes "source_peer", optional e.source_peer)
        ∷ (codes "delivery_results", object (from_fields (text_fields e.delivery_results)))
        ∷ (codes "delivery_reasons", object (from_fields (text_fields e.delivery_reasons)))
        ∷ []))

  -- `_serialize_pending_delivery`
  unfoldable pub delivery_json : GroupPendingDelivery → Json
  delivery_json d = object (
      from_fields (
        (codes "group_id", string d.group_id)
        ∷ (codes "group_title", optional d.group_title)
        ∷ (codes "group_members", strings d.group_members)
        ∷ (codes "sender_id", string d.sender_id)
        ∷ (codes "recipient_id", string d.recipient_id)
        ∷ (codes "delivery_id", string d.delivery_id)
        ∷ (codes "msg_id", string d.msg_id)
        ∷ (codes "group_seq", int d.group_seq)
        ∷ (codes "epoch", int d.epoch)
        ∷ (codes "content_type", string (content_type_text d.content_type))
        ∷ (codes "payload", d.payload)
        ∷ (codes "created_at", string (time.isoformat d.created_at))
        ∷ []))

  -- `_serialize_pending_group_blindbox_message`
  unfoldable pub message_json : GroupPendingBlindBoxMessage → Json
  message_json m = object (
      from_fields (
        (codes "group_id", string m.group_id)
        ∷ (codes "group_title", optional m.group_title)
        ∷ (codes "group_members", strings m.group_members)
        ∷ (codes "sender_id", string m.sender_id)
        ∷ (codes "msg_id", string m.msg_id)
        ∷ (codes "group_seq", int m.group_seq)
        ∷ (codes "epoch", int m.epoch)
        ∷ (codes "content_type", string (content_type_text m.content_type))
        ∷ (codes "payload", m.payload)
        ∷ (codes "created_at", string (time.isoformat m.created_at))
        ∷ []))

  unfoldable pub channel_or_null : Option (GroupBlindBoxChannel StateData) → Json
  channel_or_null none = null
  channel_or_null (some c) = channel_json c

  -- The payload of `save_group_conversation`
  unfoldable pub record_fields : GroupRecord → Dict Json
  record_fields r =
      (codes "version", int r.version)
      ∷ (codes "state", state_json r.state)
      ∷ (codes "next_group_seq", int r.next_group_seq)
      ∷ (codes "history", array (from_items (map entry_json r.history)))
      ∷ (codes "seen_msg_ids", strings r.seen_msg_ids)
      ∷ (codes "pending_deliveries", array (from_items (map delivery_json r.pending_deliveries)))
      ∷ (codes "blindbox_channel", channel_or_null r.blindbox_channel)
      ∷ (
        codes "pending_group_blindbox_messages",
        array (from_items (map message_json r.pending_group_blindbox_messages)),
      )
      ∷ []
