-- ===== src/Groups/Import/Snapshot.antt =====
-- What a message makes of the state of its group, and the entry of its history, in
-- i2pchat/core/i2p_chat_core.py.
use i2pchat.Prelude.{
  ℕ, max, Option, none, some, List, [], ◌∷◌, ◌++◌, if◌then◌else◌, is_empty, get_or, map, pos,
}
use i2pchat.Text.{Str, codes, str_eq}
use i2pchat.Json.{Json, null, string, array, object, int, items, fields, truthy, str_of, int_of}
use i2pchat.Dict.{lookup, keys}
use i2pchat.BlindBox.{◌>>=◌}
use i2pchat.PeerAddress.{normalize_member_id}
use i2pchat.PeerAddress.Typed.{normalize_peer_addr}
use i2pchat.Groups.Models.{
  GroupContentType, group_text, group_control, GroupState, GroupEnvelope, make_state, or_none,
}
use i2pchat.Groups.Store.Models.{GroupHistoryEntry, make_entry, at_least_zero}
use i2pchat.Groups.Wire.Fields.{Object, text_field}
use i2pchat.Groups.Import.Checks.{Core, local_member}

abbrev pub members_or_none : Option GroupState → List Str
members_or_none none = []
members_or_none (some s) = s.members

abbrev pub title_or_none : Option GroupState → Option Str
title_or_none none = none
title_or_none (some s) = s.title

-- `a or b`
abbrev pub first_of : Option Str → Option Str → Option Str
first_of none b = b
first_of (some a) b = some a

-- A character as a text, as Python iterates over a text
abbrev pub one_char : ℕ → Str
one_char c = c ∷ []

module _ (core : Core) where
  -- `_merge_group_state_snapshot`
  unfoldable pub merge_group_state_snapshot :
      Option GroupState → GroupState → GroupEnvelope Json → GroupState
  merge_group_state_snapshot existing incoming envelope =
      let local = local_member core in
      let own = if is_empty local then [] else local ∷ [] in
      make_state core.env.case incoming.group_id
        (elim existing [
          | none ↦ max envelope.epoch incoming.epoch
          | some s ↦ max (max envelope.epoch incoming.epoch) s.epoch
        ])
        (members_or_none existing ++ incoming.members ++ envelope.sender_id ∷ own)
        (first_of incoming.title (title_or_none existing))
        (elim existing [ none ↦ incoming.created_at | some s ↦ s.created_at ])
        (elim existing [
          | none ↦ max incoming.updated_at envelope.created_at
          | some s ↦ max (max incoming.updated_at envelope.created_at) s.updated_at
        ])

  -- `tuple(str(member) for member in payload.get("members", state.members))`; what cannot be iterated over
  -- raises.
  unfoldable pub control_members : Object → List Str → Option (List Str)
  control_members get members = elim (get (codes "members")) [
    | none ↦ some members
    | some (array js) ↦ some (map (str_of core.env.repr) (items js))
    | some (string s) ↦ some (map one_char s)
    | some (object fs) ↦ some (keys (fields fs))
    | some _ ↦ none
  ]

  -- `_apply_group_control_payload`; `none` is an exception.
  unfoldable pub apply_group_control_payload : GroupState → Json → ℕ → ℕ → Option GroupState
  apply_group_control_payload state (object fs) updated_at epoch = do
    let get = λ (key : Str). lookup key (fields fs)
    members ← control_members get state.members
    control_epoch ← int_of (get_or (int (pos epoch)) (get (codes "epoch")))
    let title = first_of (or_none (text_field core.env.repr get (codes "title"))) state.title
    some (
        make_state core.env.case state.group_id (max state.epoch (at_least_zero control_epoch))
          members title state.created_at updated_at)
  apply_group_control_payload state payload updated_at epoch = some state

  -- The state after the message
  unfoldable pub imported_state : GroupState → GroupEnvelope Json → Option GroupState
  imported_state merged envelope = elim envelope.content_type [
    | group_text ↦ some merged
    | group_control ↦
        apply_group_control_payload merged (get_or null envelope.payload) envelope.created_at
          envelope.epoch
  ]

  -- `_group_history_kind`
  unfoldable pub group_history_kind : Str → Str
  group_history_kind sender_id =
      let local = local_member core in
      if is_empty local
      then codes "peer"
      else if str_eq (normalize_member_id core.env.case sender_id) local
      then codes "me"
      else codes "peer"

  -- `str(envelope.payload or "")` of a text
  unfoldable pub payload_text : GroupContentType → Json → Str
  payload_text group_text payload = if truthy payload then str_of core.env.repr payload else []
  payload_text group_control payload = []

  -- `_build_group_history_entry` without deliveries; `none` is the `ValueError` of the address.
  unfoldable pub build_group_history_entry : GroupEnvelope Json → Str → Option GroupHistoryEntry
  build_group_history_entry envelope source_peer = do
    source ← normalize_peer_addr core.env.case source_peer
    let payload = get_or null envelope.payload
    some (
        make_entry core.env.case core.env.repr (record {
          kind = group_history_kind envelope.sender_id;
          sender_id = envelope.sender_id;
          content_type = envelope.content_type;
          text = payload_text envelope.content_type payload;
          payload = payload;
          msg_id = some envelope.msg_id;
          group_seq = pos envelope.group_seq;
          epoch = pos envelope.epoch;
          created_at = envelope.created_at;
          source_peer = or_none source;
          delivery_results = [];
          delivery_reasons = [];
        }))
