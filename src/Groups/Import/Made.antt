-- ===== src/Groups/Import/Made.antt =====
-- What `import_group_transport` of i2pchat/core/i2p_chat_core.py makes of a message: a state and an entry for the store.
use i2pchat.Prelude.{
  ℕ, ◌≡◌, refl, ap, ◌∙◌, true, false, Option, List, [], arith, is_empty, pos, Bool-cases, inl, inr,
  get_or, ◌⊎◌,
}
use i2pchat.Text.{Str, codes, str_eq_refl}
use i2pchat.Text.Strip.{strip, strip_idem}
use i2pchat.Json.{Json, object, null, int, int_of, fields}
use i2pchat.Dict.{lookup}
use i2pchat.PeerAddress.Typed.{normalize_peer_addr}
use i2pchat.Groups.Models.{
  GroupState, GroupContentType, GroupEnvelope, group_text, group_control, make_state,
}
use i2pchat.Groups.Store.Models.{GroupHistoryEntry, make_entry, strip_or_none}
use i2pchat.Groups.Store.Normal.{make_entry_idem}
use i2pchat.Groups.Store.Conversation.{entry_id, deserialize_state}
use i2pchat.Groups.Store.Stored.{deserialize_state-make_state}
use i2pchat.Groups.Store.Log.{Log, log_has, log_append}
use i2pchat.Groups.Store.Refinement.{log_has-append, get_or-or_none}
use i2pchat.Groups.Wire.Valid.{Yields, Yields-bind}
use i2pchat.Groups.Import.Checks.{Core}
use i2pchat.Groups.Import.Snapshot.{
  merge_group_state_snapshot, apply_group_control_payload, control_members, imported_state,
  build_group_history_entry,
}

-- A named entry is in the log after its append.
pub log_append-has :
    (e : GroupHistoryEntry) (log : Log)
    → is_empty (entry_id e) ≡ false
    → log_has (entry_id e) (log_append e log).1 ≡ true
unfolding log_append
log_append-has e log named = elim (Bool-cases (log_has (entry_id e) log)) [
  | inl old ↦ rw (named, old) old
  | inr new ↦
      rw (named, new) (ground (arith, log_has-append (entry_id e) log e, str_eq_refl (entry_id e)))
]

type_cases : (t : GroupContentType) → (t ≡ group_text) ⊎ (t ≡ group_control)
type_cases group_text = inl refl
type_cases group_control = inr refl

module _ (core : Core) where
  -- A state that its constructor made, of the group
  abbrev pub IsMade : Str → GroupState → Type 0
  IsMade group_id st = (deserialize_state core.env.case st ≡ st) × (st.group_id ≡ strip group_id)

  make-IsMade :
      (id : Str) (epoch : ℕ) (members : List Str) (title : Option Str) (created updated : ℕ)
      → IsMade id (make_state core.env.case id epoch members title created updated)
  unfolding make_state
  make-IsMade id epoch members title created updated =
      (deserialize_state-make_state core.env.case id epoch members title created updated, refl)

  pub merged-IsMade :
      (existing : Option GroupState) (incoming : GroupState) (e : GroupEnvelope Json)
      → IsMade incoming.group_id (merge_group_state_snapshot core existing incoming e)
  unfolding merge_group_state_snapshot
  merged-IsMade existing incoming e = make-IsMade incoming.group_id _ _ _ _ _

  controlled-IsMade :
      (st : GroupState) (payload : Json) (t epoch : ℕ) (group_id : Str)
      → IsMade group_id st
      → Yields (IsMade group_id) (apply_group_control_payload core st payload t epoch)
  unfolding apply_group_control_payload
  controlled-IsMade st (object fs) t epoch group_id h =
      let get = λ (key : Str). lookup key (fields fs) in
      Yields-bind (IsMade group_id) (control_members core get st.members) _ (λ members _.
        Yields-bind (IsMade group_id) (int_of (get_or (int (pos epoch)) (get (codes "epoch")))) _
          (λ z _.
            let made = make-IsMade st.group_id _ _ _ _ _ in
            (made.0, made.1 ∙ ap strip h.1 ∙ strip_idem group_id)))
  controlled-IsMade st payload t epoch group_id h = h

  pub imported-IsMade :
      (merged : GroupState) (e : GroupEnvelope Json) (group_id : Str)
      → IsMade group_id merged
      → Yields (IsMade group_id) (imported_state core merged e)
  unfolding imported_state
  imported-IsMade merged e group_id h = elim (type_cases e.content_type) [
    | inl is_text ↦ rw is_text h
    | inr is_control ↦
        rw is_control
          (controlled-IsMade merged (get_or null e.payload) e.created_at e.epoch group_id h)
  ]

  -- The entry of a message
  abbrev pub IsEntryOf : GroupEnvelope Json → GroupHistoryEntry → Type 0
  IsEntryOf e entry =
      (make_entry core.env.case core.env.repr entry ≡ entry) × (entry_id entry ≡ strip e.msg_id)

  made_id :
      (raw : GroupHistoryEntry)
      → entry_id (make_entry core.env.case core.env.repr raw) ≡ strip (get_or [] raw.msg_id)
  unfolding make_entry entry_id strip_or_none
  made_id raw = get_or-or_none (strip (get_or [] raw.msg_id))

  pub built-IsEntryOf :
      (e : GroupEnvelope Json) (source : Str)
      → Yields (IsEntryOf e) (build_group_history_entry core e source)
  unfolding build_group_history_entry
  built-IsEntryOf e source =
      Yields-bind (IsEntryOf e) (normalize_peer_addr core.env.case source) _
        (λ peer _. (make_entry_idem core.env.case core.env.repr _, made_id _))
