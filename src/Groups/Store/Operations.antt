-- ===== src/Groups/Store/Operations.antt =====
-- The operations of i2pchat/storage/group_store.py on the directory of a profile.
use i2pchat.Prelude.{
  ℕ, max, Bool, true, false, Option, none, some, List, [], ◌∷◌, ◌++◌, if◌then◌else◌, is_empty, ℤ,
  pos,
}
use i2pchat.Text.{Str, str_in}
use i2pchat.Text.Strip.{strip}
use i2pchat.Text.Case.{CaseMapping}
use i2pchat.Json.{Json}
use i2pchat.Dict.{lookup, pop}
use i2pchat.Groups.Models.{GroupState}
use i2pchat.Groups.Store.Models.{GroupHistoryEntry, at_least_zero}
use i2pchat.Groups.Store.Conversation.{
  StoredGroupConversation, make_conversation, entry_id, cut_seen, serialize, deserialize,
}
use i2pchat.Groups.Store.Files.{
  Bytes, Disk, JsonText, Crypto, group_record_path, safe_group_token, write_group_payload,
  read_group_payload,
}

-- What `load_group_conversation` does: `None`, a `ValueError`, or the conversation
pub data Loaded : Type 0 where
  missing refused : Loaded
  found : StoredGroupConversation → Loaded

-- The record that is there; `none` where the loading failed
unfoldable pub existing_of : Loaded → Option (Option StoredGroupConversation)
existing_of missing = some none
existing_of refused = none
existing_of (found c) = some (some c)

-- `_resolve_next_group_seq`
unfoldable pub resolve_next_group_seq : Option StoredGroupConversation → Option ℤ → ℕ
resolve_next_group_seq existing next_group_seq =
    let resolved : ℕ = elim existing [ none ↦ 1 | some c ↦ c.next_group_seq ] in
    elim next_group_seq [ none ↦ resolved | some z ↦ max resolved (max 1 (at_least_zero z)) ]

-- `existing.… if existing is not None else …`
unfoldable pub updated :
    Option StoredGroupConversation
    → GroupState
    → ℕ
    → List GroupHistoryEntry
    → List Str
    → StoredGroupConversation
updated none state next history seen = make_conversation state (pos next) history seen [] none []
updated (some c) state next history seen =
    make_conversation state (pos next) history seen c.pending_deliveries c.blindbox_channel
      c.pending_group_blindbox_messages

unfoldable pub history_of : Option StoredGroupConversation → List GroupHistoryEntry
history_of none = []
history_of (some c) = c.history

unfoldable pub seen_of : Option StoredGroupConversation → List Str
seen_of none = []
seen_of (some c) = c.seen_msg_ids

-- The conversation that `upsert_group_state` saves
unfoldable pub upserted :
    Option StoredGroupConversation → GroupState → Option ℤ → StoredGroupConversation
upserted existing state next_group_seq =
    updated existing state (resolve_next_group_seq existing next_group_seq) (history_of existing)
      (seen_of existing)

-- The conversation that `append_group_history_entry` saves, and whether the entry is new
unfoldable pub appended :
    Option StoredGroupConversation
    → GroupState
    → GroupHistoryEntry
    → Option ℤ
    → StoredGroupConversation × Bool
appended existing state entry next_group_seq =
    let next = resolve_next_group_seq existing next_group_seq in
    let history = history_of existing in
    let seen = seen_of existing in
    let msg_id = strip (entry_id entry) in
    if is_empty msg_id
    then (updated existing state next (history ++ entry ∷ []) seen, true)
    else if str_in msg_id seen
    then (updated existing state next history seen, false)
    else (
      updated existing state next (history ++ entry ∷ []) (cut_seen (seen ++ msg_id ∷ [])),
      true,
    )

-- What the operations of a profile depend on
pub record Environment : Type 0 where
  pub case : CaseMapping
  pub repr : Json → Str
  pub json : JsonText
  pub crypto : Crypto
  pub profile : Str
  pub identity_key : Option Bytes

module _ (env : Environment) where
  -- `_group_record_path` and `_safe_group_token` of a group
  abbrev pub path_of : Str → Str
  path_of = group_record_path env.json env.crypto env.profile

  abbrev pub token_of : Str → Str
  token_of = safe_group_token env.json env.crypto

  -- `save_group_conversation`; `fresh` is what `secrets.token_bytes` returns.
  unfoldable pub save_group_conversation : Bytes → StoredGroupConversation → Disk → Disk
  save_group_conversation fresh c disk =
      let group_id = c.state.group_id in
      write_group_payload env.json env.crypto fresh (path_of group_id) (serialize c)
        (token_of group_id) env.identity_key disk

  -- `load_group_conversation` at a time
  unfoldable pub load_group_conversation : ℤ → Str → Disk → Loaded
  load_group_conversation now group_id disk = elim (lookup (path_of group_id) disk) [
    | none ↦ missing
    | some raw ↦
        elim (read_group_payload env.json env.crypto raw (token_of group_id) env.identity_key) [
          | none ↦ refused
          | some payload ↦ elim (deserialize env.case env.repr now payload) [
            | none ↦ refused
            | some c ↦ found c
          ]
        ]
  ]

  -- `upsert_group_state`; `none` is the `ValueError` of the loading.
  unfoldable pub upsert_group_state :
      ℤ → Bytes → GroupState → Option ℤ → Disk → Option (StoredGroupConversation × Disk)
  upsert_group_state now fresh state next_group_seq disk =
      elim (existing_of (load_group_conversation now state.group_id disk)) [
        | none ↦ none
        | some existing ↦
            let c = upserted existing state next_group_seq in
            some (c, save_group_conversation fresh c disk)
      ]

  -- `append_group_history_entry`
  unfoldable pub append_group_history_entry :
      ℤ
      → Bytes
      → GroupState
      → GroupHistoryEntry
      → Option ℤ
      → Disk
      → Option (StoredGroupConversation × Bool × Disk)
  append_group_history_entry now fresh state entry next_group_seq disk =
      elim (existing_of (load_group_conversation now state.group_id disk)) [
        | none ↦ none
        | some existing ↦
            let (c, new) = appended existing state entry next_group_seq in
            some (c, new, save_group_conversation fresh c disk)
      ]

  -- `load_group_state`; the outer `none` is the `ValueError`.
  unfoldable pub load_group_state : ℤ → Str → Disk → Option (Option GroupState)
  load_group_state now group_id disk = elim (load_group_conversation now group_id disk) [
    | missing ↦ some none
    | refused ↦ none
    | found c ↦ some (some c.state)
  ]

  -- `delete_group_record`, where the removal succeeds
  unfoldable pub delete_group_record : Str → Disk → Bool × Disk
  delete_group_record group_id disk =
      let gid = strip group_id in
      let path = path_of gid in
      if is_empty gid
      then (false, disk)
      else elim (lookup path disk) [ none ↦ (false, disk) | some raw ↦ (true, pop path disk) ]
