-- ===== src/Groups/Store/Conversation.antt =====
-- `StoredGroupConversation` of i2pchat/storage/group_store.py: its constructor, the message ids that are
-- remembered, and its form in the file.
use i2pchat.Prelude.{
  ℕ, ◌+◌, ◌==◌, max, ◌||◌, Option, none, some, List, [], ◌∷◌, ◌++◌, ltb, length, if◌then◌else◌,
  is_empty, get_or, ℤ, pos, negsuc, map,
}
use i2pchat.Text.{Str, str_in}
use i2pchat.Text.Strip.{strip}
use i2pchat.Text.Case.{CaseMapping}
use i2pchat.Json.{Json}
use i2pchat.Retention.{last_slice}
use i2pchat.BlindBox.{BlindBoxState, StateData, ◌>>=◌}
use i2pchat.Groups.Models.{GroupState, make_state}
use i2pchat.Groups.Store.Models.{
  at_least_zero, GroupHistoryEntry, GroupPendingDelivery, GroupPendingBlindBoxMessage, make_entry,
  make_delivery, make_message,
}
use i2pchat.Groups.Store.Channel.{GroupBlindBoxChannel, serialize_channel, deserialize_channel}

abbrev pub max_seen_group_msg_ids : ℕ
max_seen_group_msg_ids = 4096

abbrev pub Channel : Type 0
Channel = GroupBlindBoxChannel BlindBoxState

pub record StoredGroupConversation : Type 0 where
  pub state : GroupState
  pub next_group_seq : ℕ
  pub history : List GroupHistoryEntry
  pub seen_msg_ids : List Str
  pub pending_deliveries : List GroupPendingDelivery
  pub blindbox_channel : Option Channel
  pub pending_group_blindbox_messages : List GroupPendingBlindBoxMessage

-- `_remember`: the ids that are resolved are the ids that are seen.
unfoldable pub remember : List Str → Str → List Str
remember resolved raw_msg_id =
    let msg_id = strip raw_msg_id in
    if is_empty msg_id || str_in msg_id resolved then resolved else resolved ++ msg_id ∷ []

unfoldable pub remember_all : List Str → List Str → List Str
remember_all resolved [] = resolved
remember_all resolved (msg_id ∷ rest) = remember_all (remember resolved msg_id) rest

-- `entry.msg_id or ""`
unfoldable pub entry_id : GroupHistoryEntry → Str
entry_id e = get_or [] e.msg_id

-- The last ids, where there are too many
unfoldable pub cut_seen : List Str → List Str
cut_seen ids =
    if ltb max_seen_group_msg_ids (length ids) then last_slice max_seen_group_msg_ids ids else ids

-- `_resolve_seen_msg_ids`
unfoldable pub resolve_seen_msg_ids : List GroupHistoryEntry → List Str → List Str
resolve_seen_msg_ids history stored_seen_msg_ids =
    cut_seen (remember_all (remember_all [] stored_seen_msg_ids) (map entry_id history))

-- `str(raw).strip()` of each id that is not blank
unfoldable pub stripped : List Str → List Str
stripped [] = []
stripped (raw ∷ rest) =
    let others = stripped rest in if is_empty (strip raw) then others else strip raw ∷ others

-- `max((entry.group_seq …), default=0)`; the numbers of entries are not negative.
unfoldable pub highest_group_seq : List GroupHistoryEntry → ℕ
highest_group_seq [] = 0
highest_group_seq (e ∷ rest) = max (at_least_zero e.group_seq) (highest_group_seq rest)

-- The items with a key that is not blank and was not met; `seen` holds the keys.
unfoldable pub distinct_by : {A : Type 0} → (A → Str) → List Str → List A → List A
distinct_by key seen [] = []
distinct_by key seen (x ∷ xs) =
    let skip = is_empty (key x) || str_in (key x) seen in
    let others = distinct_by key (if skip then seen else key x ∷ seen) xs in
    if skip then others else x ∷ others

-- `StoredGroupConversation(…)`
unfoldable pub make_conversation :
    GroupState
    → ℤ
    → List GroupHistoryEntry
    → List Str
    → List GroupPendingDelivery
    → Option Channel
    → List GroupPendingBlindBoxMessage
    → StoredGroupConversation
make_conversation state next_group_seq history seen pending channel messages = record {
  state = state;
  next_group_seq = max 1 (max (at_least_zero next_group_seq) (highest_group_seq history + 1));
  history = history;
  seen_msg_ids = resolve_seen_msg_ids history (stripped seen);
  pending_deliveries = distinct_by (λ (d : GroupPendingDelivery). d.delivery_id) [] pending;
  blindbox_channel = channel;
  pending_group_blindbox_messages =
      distinct_by (λ (m : GroupPendingBlindBoxMessage). m.msg_id) [] messages;
}

-- The values of the object of a file; Record writes them as JSON and reads them.
pub record GroupRecord : Type 0 where
  pub version : ℤ
  pub state : GroupState
  pub next_group_seq : ℤ
  pub history : List GroupHistoryEntry
  pub seen_msg_ids : List Str
  pub pending_deliveries : List GroupPendingDelivery
  pub blindbox_channel : Option (GroupBlindBoxChannel StateData)
  pub pending_group_blindbox_messages : List GroupPendingBlindBoxMessage

-- The channel as a file has it
abbrev pub saved_channel : Option Channel → Option (GroupBlindBoxChannel StateData)
saved_channel none = none
saved_channel (some ch) = some (serialize_channel ch)

-- The values of the payload of `save_group_conversation`
unfoldable pub serialize : StoredGroupConversation → GroupRecord
serialize c = record {
  version = pos 1;
  state = c.state;
  next_group_seq = pos (max 1 c.next_group_seq);
  history = c.history;
  seen_msg_ids = c.seen_msg_ids;
  pending_deliveries = c.pending_deliveries;
  blindbox_channel = saved_channel c.blindbox_channel;
  pending_group_blindbox_messages = c.pending_group_blindbox_messages;
}

module _ (u : CaseMapping) where
  -- `_deserialize_state`
  unfoldable pub deserialize_state : GroupState → GroupState
  deserialize_state s = make_state u s.group_id s.epoch s.members s.title s.created_at s.updated_at

  unfoldable pub load_channel :
      ℤ → Option (GroupBlindBoxChannel StateData) → Option (Option Channel)
  load_channel now none = some none
  load_channel now (some data_) = do ch ← deserialize_channel u now data_; some (some ch)

module _ (u : CaseMapping) (repr : Json → Str) where
  -- The conversation that `load_group_conversation` builds of the fields
  unfoldable pub restore : GroupRecord → Option Channel → StoredGroupConversation
  restore r channel =
      let history = map (make_entry u repr) r.history in
      make_conversation (deserialize_state u r.state) (pos (max 1 (at_least_zero r.next_group_seq)))
        history (resolve_seen_msg_ids history (stripped r.seen_msg_ids))
        (map (make_delivery u repr) r.pending_deliveries) channel
        (map (make_message u repr) r.pending_group_blindbox_messages)

  -- The part of `load_group_conversation` that follows the reading of the file; `none` is a `ValueError`.
  unfoldable pub deserialize : ℤ → GroupRecord → Option StoredGroupConversation
  deserialize now r = elim r.version [
    | negsuc n ↦ none
    | pos n ↦
        if n == 1
        then elim (load_channel u now r.blindbox_channel) [
          | none ↦ none
          | some channel ↦ some (restore r channel)
        ]
        else none
  ]
