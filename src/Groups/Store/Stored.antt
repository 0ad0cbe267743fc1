-- ===== src/Groups/Store/Stored.antt =====
-- The conversations that the store keeps, and that a saved one is loaded as it was.
use i2pchat.Prelude.{
  ℕ, ◌+◌, ◌≤◌, ◌<◌, ◌≡◌, refl, ap, ◌∙◌, max, Option, some, List, [], ◌∷◌, arith, length, All, map,
  ℤ, get_or,
}
use i2pchat.Text.{Str, str_eq_refl}
use i2pchat.Text.Case.{CaseMapping}
use i2pchat.Json.{Json}
use i2pchat.Dict.{lookup, put, lookup-put}
use i2pchat.Groups.Models.{make_state, or_none}
use i2pchat.Groups.Models.Members.{members_canonical}
use i2pchat.Groups.Store.Normal.{strip_or_none_idem}
use i2pchat.Text.Strip.{strip, strip_idem}
use i2pchat.Groups.Store.Models.{
  at_least_zero, GroupHistoryEntry, GroupPendingDelivery, GroupPendingBlindBoxMessage, make_entry,
  make_delivery, make_message, strip_or_none,
}
use i2pchat.Groups.Store.Conversation.{
  StoredGroupConversation, GroupRecord, entry_id, resolve_seen_msg_ids, stripped, highest_group_seq,
  distinct_by, make_conversation, serialize, deserialize, deserialize_state, restore,
}
use i2pchat.Groups.Store.Kept.{IsKept, load-saved}
use i2pchat.Groups.Store.Files.{Bytes, Disk, read_group_payload}
use i2pchat.Groups.Store.Sealing.{read-write}
use i2pchat.Groups.Store.SeenIds.{
  AreIds, IsKnown, remember_all_id, remember_all-known, cut_seen_id, stripped_id,
}
use i2pchat.Groups.Store.Operations.{
  Environment, found, path_of, token_of, save_group_conversation, load_group_conversation,
}

abbrev pub delivery_key : GroupPendingDelivery → Str
delivery_key d = d.delivery_id

abbrev pub message_key : GroupPendingBlindBoxMessage → Str
message_key m = m.msg_id

-- What no constructor would change, with a sequence number above those of the history, and with the ids
-- of the history among those remembered
pub record IsStored (u : CaseMapping) (repr : Json → Str) (c : StoredGroupConversation)
    : Type 0 where
  pub state_ok : deserialize_state u c.state ≡ c.state
  pub next_ok : highest_group_seq c.history < c.next_group_seq
  pub history_ok : All (λ e. make_entry u repr e ≡ e) c.history
  pub seen_ok : AreIds c.seen_msg_ids
  pub seen_few : length c.seen_msg_ids ≤ 4096
  pub seen_all : All (IsKnown c.seen_msg_ids) (map entry_id c.history)
  pub deliveries_ok : All (λ d. make_delivery u repr d ≡ d) c.pending_deliveries
  pub deliveries_distinct : distinct_by delivery_key [] c.pending_deliveries ≡ c.pending_deliveries
  pub channel_ok : IsKept u c.blindbox_channel
  pub messages_ok : All (λ m. make_message u repr m ≡ m) c.pending_group_blindbox_messages
  pub messages_distinct :
      distinct_by message_key [] c.pending_group_blindbox_messages
      ≡ c.pending_group_blindbox_messages

-- A state that its constructor made is loaded as it is.
pub deserialize_state-make_state :
    (u : CaseMapping) (id : Str) (epoch : ℕ) (members : List Str) (title : Option Str)
    (created updated : ℕ)
    → let s = make_state u id epoch members title created updated in deserialize_state u s ≡ s
unfolding deserialize_state make_state strip_or_none
deserialize_state-make_state u id epoch members title created updated = λ i. record {
  group_id = strip_idem id i;
  epoch = epoch;
  members = (members_canonical u members).2 i;
  title = title_idem i;
  created_at = created;
  updated_at = updated;
}
  where
    title_idem :
        or_none (strip (get_or [] (or_none (strip (get_or [] title)))))
        ≡ or_none (strip (get_or [] title))
    title_idem = strip_or_none_idem title

map_id : {A : Type 0} (f : A → A) (xs : List A) → All (λ x. f x ≡ x) xs → map f xs ≡ xs
map_id f [] h = refl
map_id f (x ∷ xs) h = λ i. h.0 i ∷ map_id f xs h.1 i

-- Ids that cover a history are resolved to themselves.
pub resolve_seen_id :
    (history : List GroupHistoryEntry) (ids : List Str)
    → AreIds ids
    → length ids ≤ 4096
    → All (IsKnown ids) (map entry_id history)
    → resolve_seen_msg_ids history (stripped ids) ≡ ids
unfolding resolve_seen_msg_ids
resolve_seen_id history ids ok few all =
    rw
      (
        stripped_id ids ok,
        remember_all_id ids ok,
        remember_all-known ids (map entry_id history) all,
      )
      (cut_seen_id ids few)

module _ (u : CaseMapping) (repr : Json → Str) where
  history_id :
      (c : StoredGroupConversation)
      → IsStored u repr c
      → map (make_entry u repr) c.history ≡ c.history
  history_id c ok = map_id (make_entry u repr) c.history ok.history_ok

  seen_again :
      (c : StoredGroupConversation)
      → IsStored u repr c
      → let history = map (make_entry u repr) c.history in
        resolve_seen_msg_ids history
          (stripped (resolve_seen_msg_ids history (stripped c.seen_msg_ids)))
        ≡ c.seen_msg_ids
  seen_again c ok =
      let once = resolve_seen_id c.history c.seen_msg_ids ok.seen_ok ok.seen_few ok.seen_all in
      rw (history_id c ok, once) once

  next_again :
      (c : StoredGroupConversation)
      → IsStored u repr c
      → max 1 (
          max
            (max 1 (max 1 c.next_group_seq))
            (highest_group_seq (map (make_entry u repr) c.history) + 1))
        ≡ c.next_group_seq
  next_again c ok = let above = ok.next_ok in rw (history_id c ok) (omega arith)

  restore-serialize :
      (c : StoredGroupConversation)
      → IsStored u repr c
      → restore u repr (serialize c) c.blindbox_channel ≡ c
  unfolding restore serialize make_conversation at_least_zero
  restore-serialize c ok =
      let deliveries = map_id (make_delivery u repr) c.pending_deliveries ok.deliveries_ok in
      let messages =
        map_id (make_message u repr) c.pending_group_blindbox_messages ok.messages_ok in
      λ i. record {
        state = ok.state_ok i;
        next_group_seq = next_again c ok i;
        history = history_id c ok i;
        seen_msg_ids = seen_again c ok i;
        pending_deliveries =
            (ap (distinct_by delivery_key []) deliveries ∙ ok.deliveries_distinct) i;
        blindbox_channel = c.blindbox_channel;
        pending_group_blindbox_messages =
            (ap (distinct_by message_key []) messages ∙ ok.messages_distinct) i;
      }

  deserialize-serialize :
      (now : ℤ) (c : StoredGroupConversation)
      → IsStored u repr c
      → deserialize u repr now (serialize c) ≡ some c
  unfolding deserialize serialize
  deserialize-serialize now c ok =
      rw (load-saved u now c.blindbox_channel ok.channel_ok) (ap some (restore-serialize c ok))

module _ (env : Environment) where
  load-raw :
      (now : ℤ) (group_id : Str) (raw : Bytes) (r : GroupRecord) (c : StoredGroupConversation)
      (disk : Disk)
      → lookup (path_of env group_id) disk ≡ some raw
      → read_group_payload env.json env.crypto raw (token_of env group_id) env.identity_key ≡ some r
      → deserialize env.case env.repr now r ≡ some c
      → load_group_conversation env now group_id disk ≡ found c
  unfolding load_group_conversation
  load-raw now group_id raw r c disk there read known =
      rw (there, load_group_conversation) (rw read (rw known refl))

  -- A conversation that is saved is loaded again as it was, whatever was on the disk before, encrypted or
  -- not.
  pub load-save :
      (now : ℤ) (fresh : Bytes) (c : StoredGroupConversation) (disk : Disk)
      → IsStored env.case env.repr c
      → length fresh ≡ 32
      → load_group_conversation env now c.state.group_id (save_group_conversation env fresh c disk)
        ≡ found c
  unfolding save_group_conversation
  load-save now fresh c disk ok size =
      let id = c.state.group_id in
      let path = path_of env id in
      let (raw, e, r) =
        read-write env.json env.crypto fresh path (token_of env id) c env.identity_key disk size in
      let there : lookup path (put path raw disk) ≡ some raw =
        lookup-put path path raw disk ∙ rw (str_eq_refl path) refl in
      rw e (
        load-raw now id raw (serialize c) c (put path raw disk) there r
          (deserialize-serialize env.case env.repr now c ok))
