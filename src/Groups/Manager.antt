-- ===== src/Groups/Manager.antt =====
-- i2pchat/groups/manager.py. A sender is a callback of the core: it may change the session state, and
-- so may whatever runs while it is awaited; `none` is an exception.
pub mod Delivery
pub mod Sequence
pub mod FanOut
pub mod Recipients
pub mod Sending
use i2pchat.Prelude.{
  ℕ, suc, ◌+◌, ◌-◌, max, Bool, true, false, ◌&&◌, ◌||◌, not, Option, none, some, List, [], ◌∷◌,
  ◌++◌, if◌then◌else◌, is_empty, get_or, keep, map,
}
use i2pchat.Text.{Str, codes}
use i2pchat.Text.Strip.{strip}
use i2pchat.Text.Case.{CaseMapping}
use i2pchat.PeerAddress.{normalize_member_id, same_i2p_destination}
use i2pchat.Dict.{Dict, lookup, put, pop}
use i2pchat.BlindBox.{◌>>=◌}
use i2pchat.Session.State.{
  Clock, SessionManager, OutboundPolicy, live_only, prefer_live_fallback_blindbox,
  queue_then_retry_live, blindbox_only,
}
use i2pchat.Session.Policy.{select_outbound_policy, is_live_path_alive}
use i2pchat.Groups.Models.{
  GroupContentType, group_text, group_control, GroupDeliveryStatus, delivered_live, queued_offline,
  failed, GroupState, GroupRecipientDeliveryMetadata, GroupEnvelope, GroupTransportOutcome,
  GroupMemberDeliveryResult, GroupSendResult,
}

abbrev pub Sender : Type 0 → Type 0
Sender P =
    Str
    → GroupEnvelope P
    → GroupRecipientDeliveryMetadata
    → SessionManager
    → Option (GroupTransportOutcome × SessionManager)

-- `_group_seq_by_id`: the last sequence number of each group
abbrev pub Sequences : Type 0
Sequences = Dict ℕ

-- `max(0, int(next_group_seq) - 1)` is the subtraction that stops at 0.
unfoldable pub prime_group_sequence : Str → ℕ → Sequences → Sequences
prime_group_sequence group_id next_group_seq seqs =
    let group_key = strip group_id in
    if is_empty group_key
    then seqs
    else put group_key (max (get_or 0 (lookup group_key seqs)) (next_group_seq - 1)) seqs

unfoldable pub forget_group : Str → Sequences → Sequences
forget_group group_id seqs = let key = strip group_id in if is_empty key then seqs else pop key seqs

-- `_next_group_seq`
unfoldable pub next_group_seq : Str → Sequences → ℕ × Sequences
next_group_seq group_id seqs =
    let next_seq = get_or 0 (lookup group_id seqs) + 1 in (next_seq, put group_id next_seq seqs)

-- `reason or default`
abbrev pub or_default : Str → Str → Str
or_default reason default = if is_empty reason then default else reason

abbrev pub outcome :
    GroupRecipientDeliveryMetadata
    → Str
    → GroupDeliveryStatus
    → Str
    → Option Str
    → GroupMemberDeliveryResult
outcome metadata recipient_id status reason transport_message_id = record {
  recipient_id = recipient_id;
  status = status;
  reason = reason;
  transport_message_id = transport_message_id;
  delivery_id = some metadata.delivery_id;
}

-- `policy == OutboundPolicy.LIVE_ONLY`
unfoldable pub is_live_only : OutboundPolicy → Bool
is_live_only live_only = true
is_live_only _ = false

-- `policy in (LIVE_ONLY, PREFER_LIVE_FALLBACK_BLINDBOX)`
unfoldable pub tries_live : OutboundPolicy → Bool
tries_live live_only = true
tries_live prefer_live_fallback_blindbox = true
tries_live queue_then_retry_live = false
tries_live blindbox_only = false

module _ (u : CaseMapping) {P : Type 0} (send_live send_offline : Sender P) where
  -- The last part of `_deliver_to_member`
  unfoldable pub deliver_offline :
      Str
      → GroupEnvelope P
      → GroupRecipientDeliveryMetadata
      → SessionManager
      → Option (GroupMemberDeliveryResult × SessionManager)
  deliver_offline recipient_id envelope metadata m = do
    (r, m') ← send_offline recipient_id envelope metadata m
    let result = outcome metadata recipient_id
    some (
        if r.accepted
        then (
          result queued_offline (or_default r.reason (codes "blindbox-ready"))
              r.transport_message_id,
          m',
        )
        else (
          result failed (or_default r.reason (codes "blindbox-unavailable")) r.transport_message_id,
          m',
        ))

  -- The part in which the live path is ready
  unfoldable pub deliver_live :
      OutboundPolicy
      → Str
      → GroupEnvelope P
      → GroupRecipientDeliveryMetadata
      → SessionManager
      → Option (GroupMemberDeliveryResult × SessionManager)
  deliver_live policy recipient_id envelope metadata m = do
    (r, m') ← send_live recipient_id envelope metadata m
    let result = outcome metadata recipient_id
    (if r.accepted
        then some (
          result delivered_live (or_default r.reason (codes "live-session")) r.transport_message_id,
          m',
        )
        else if is_live_only policy
        then some (
          result failed (or_default r.reason (codes "needs-live-session")) r.transport_message_id,
          m',
        )
        else deliver_offline recipient_id envelope metadata m')

  unfoldable pub deliver_to_member :
      Clock
      → Str
      → GroupEnvelope P
      → GroupRecipientDeliveryMetadata
      → Str
      → SessionManager
      → Option (GroupMemberDeliveryResult × SessionManager)
  deliver_to_member t recipient_id envelope metadata requested_route m =
      let (policy, m1) =
        select_outbound_policy u (t 0) requested_route none none (some recipient_id) m in
      if tries_live policy
      then (let (live_ready, m2) = is_live_path_alive u (t 1) none none (some recipient_id) m1 in
          if live_ready
          then deliver_live policy recipient_id envelope metadata m2
          else if is_live_only policy
          then some (outcome metadata recipient_id failed (codes "needs-live-session") none, m2)
          else deliver_offline recipient_id envelope metadata m2)
      else deliver_offline recipient_id envelope metadata m1

  unfoldable pub retry_delivery :
      Clock
      → Str
      → GroupEnvelope P
      → GroupRecipientDeliveryMetadata
      → Str
      → SessionManager
      → Option (GroupMemberDeliveryResult × SessionManager)
  retry_delivery = deliver_to_member

  -- The loop over the recipients, each with its own readings of the clock. The metadata are those
  -- that the envelope holds for the recipient; a missing entry would raise `KeyError`. What a sender
  -- raises ends the loop.
  unfoldable pub deliver_all :
      (ℕ → Clock)
      → List Str
      → GroupEnvelope P
      → Str
      → Dict GroupMemberDeliveryResult
      → SessionManager
      → Option (Dict GroupMemberDeliveryResult × SessionManager)
  deliver_all t [] envelope requested_route results m = some (results, m)
  deliver_all t (recipient_id ∷ rest) envelope requested_route results m =
      elim (lookup recipient_id envelope.member_metadata) [
        | none ↦ none
        | some metadata ↦
            elim (deliver_to_member (t 0) recipient_id envelope metadata requested_route m) [
              | none ↦ none
              | some (result, m') ↦
                  deliver_all (λ i. t (suc i)) rest envelope requested_route
                    (put recipient_id result results) m'
            ]
      ]

-- `_recipient_ids`
unfoldable pub recipient_ids : CaseMapping → GroupState → Str → List Str
recipient_ids u state sender_id =
    keep (λ member. not (is_empty member) && not (same_i2p_destination u member sender_id))
      state.members

-- `{recipient: … for recipient in recipients}`
unfoldable pub metadata_for :
    Str → List Str → Dict GroupRecipientDeliveryMetadata → Dict GroupRecipientDeliveryMetadata
metadata_for msg_id [] entries = entries
metadata_for msg_id (recipient ∷ rest) entries = metadata_for msg_id rest (
    put recipient
      (record {
        recipient_id = recipient;
        delivery_id = msg_id ++ (codes ":" ++ recipient);
        ciphertext = none;
      })
      entries)
