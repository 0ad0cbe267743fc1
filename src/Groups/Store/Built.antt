-- ===== src/Groups/Store/Built.antt =====
-- What the store saves is a conversation that it keeps: the updates of one yield another.
use i2pchat.Prelude.{
  ℕ, ◌≤◌, ◌≡◌, refl, Option, none, some, List, [], ◌∷◌, ◌++◌, arith, length, All, All-map, map, pos,
}
use i2pchat.Text.{Str}
use i2pchat.Text.Strip.{strip}
use i2pchat.Text.Case.{CaseMapping}
use i2pchat.Json.{Json}
use i2pchat.Groups.Models.{GroupState}
use i2pchat.Groups.Store.Models.{
  at_least_zero, GroupHistoryEntry, GroupPendingDelivery, GroupPendingBlindBoxMessage, make_entry,
  make_delivery, make_message,
}
use i2pchat.Groups.Store.Conversation.{
  StoredGroupConversation, Channel, entry_id, distinct_by, make_conversation, deserialize_state,
  load_channel,
}
use i2pchat.Groups.Store.SeenIds.{AreIds, IsKnown, str_in-append}
use i2pchat.Groups.Store.Stored.{IsStored, delivery_key, message_key, resolve_seen_id}
use i2pchat.Groups.Store.Kept.{IsKept}
use i2pchat.Groups.Store.Operations.{updated}

IsKnown-append : (ids : List Str) (s raw : Str) → IsKnown ids raw → IsKnown (ids ++ s ∷ []) raw
IsKnown-append ids s raw h = ground (arith, str_in-append (strip raw) ids (s ∷ []))

-- The ids of a longer history are known where the new one is.
pub All-IsKnown-append :
    (ids : List Str) (s : Str) (raw : List Str)
    → All (IsKnown ids) raw
    → All (IsKnown (ids ++ s ∷ [])) raw
All-IsKnown-append ids s raw h =
    All-map (IsKnown ids) (IsKnown (ids ++ s ∷ [])) raw (IsKnown-append ids s) h

module _ (u : CaseMapping) (repr : Json → Str) where
  make-IsStored :
      (state : GroupState) (next : ℕ) (history : List GroupHistoryEntry) (ids : List Str)
      (pending : List GroupPendingDelivery) (channel : Option Channel)
      (messages : List GroupPendingBlindBoxMessage)
      → deserialize_state u state ≡ state
      → All (λ e. make_entry u repr e ≡ e) history
      → AreIds ids
      → length ids ≤ 4096
      → All (IsKnown ids) (map entry_id history)
      → All (λ d. make_delivery u repr d ≡ d) pending
      → distinct_by delivery_key [] pending ≡ pending
      → IsKept u channel
      → All (λ m. make_message u repr m ≡ m) messages
      → distinct_by message_key [] messages ≡ messages
      → IsStored u repr (make_conversation state (pos next) history ids pending channel messages)
  unfolding make_conversation at_least_zero
  make-IsStored state next history ids pending channel messages s h a few k d dd c m md =
      let same = resolve_seen_id history ids a few k in
      record {
        state_ok = s;
        next_ok = omega arith;
        history_ok = h;
        seen_ok = rw same a;
        seen_few = rw same few;
        seen_all = rw same k;
        deliveries_ok = rw dd d;
        deliveries_distinct = rw dd dd;
        channel_ok = c;
        messages_ok = rw md m;
        messages_distinct = rw md md;
      }

  -- The record that is there, if any
  abbrev pub IsExisting : Option StoredGroupConversation → Type 0
  IsExisting none = Unit
  IsExisting (some c) = IsStored u repr c

  -- An update keeps a conversation well formed, whatever sequence number is asked for.
  pub updated-IsStored :
      (existing : Option StoredGroupConversation) (state : GroupState) (next : ℕ)
      (history : List GroupHistoryEntry) (ids : List Str)
      → IsExisting existing
      → deserialize_state u state ≡ state
      → All (λ e. make_entry u repr e ≡ e) history
      → AreIds ids
      → length ids ≤ 4096
      → All (IsKnown ids) (map entry_id history)
      → IsStored u repr (updated existing state next history ids)
  unfolding updated load_channel distinct_by
  updated-IsStored none state next history ids x s h a few k =
      make-IsStored state next history ids [] none [] s h a few k tt refl tt tt refl
  updated-IsStored (some c) state next history ids x s h a few k =
      make-IsStored state next history ids c.pending_deliveries c.blindbox_channel
        c.pending_group_blindbox_messages s h a few k x.deliveries_ok x.deliveries_distinct
        x.channel_ok x.messages_ok x.messages_distinct

  -- What the update holds
  pub updated-fields :
      (existing : Option StoredGroupConversation) (state : GroupState) (next : ℕ)
      (history : List GroupHistoryEntry) (ids : List Str)
      → AreIds ids
      → length ids ≤ 4096
      → All (IsKnown ids) (map entry_id history)
      → let c = updated existing state next history ids in
        (c.state ≡ state) × (c.history ≡ history) × (c.seen_msg_ids ≡ ids)
  unfolding updated make_conversation
  updated-fields none state next history ids a few k =
      (refl, refl, resolve_seen_id history ids a few k)
  updated-fields (some c) state next history ids a few k =
      (refl, refl, resolve_seen_id history ids a few k)
