-- ===== src/Groups/Import/Transport.antt =====
-- `import_group_transport` of i2pchat/core/i2p_chat_core.py. What is shown to the user is a list of events.
use i2pchat.Prelude.{
  ℕ, ◌+◌, max, Bool, not, ◌&&◌, Option, none, some, List, [], ◌∷◌, ◌++◌, if◌then◌else◌, is_empty,
  is_some, ℤ, pos,
}
use i2pchat.Text.{Str, str_in}
use i2pchat.Text.Strip.{strip}
use i2pchat.Json.{Json}
use i2pchat.BlindBox.{◌>>=◌}
use i2pchat.PeerAddress.Typed.{normalize_peer_addr}
use i2pchat.Groups.Models.{group_text, group_control, GroupState, GroupEnvelope, or_none}
use i2pchat.Groups.Manager.{Sequences, prime_group_sequence}
use i2pchat.Groups.Store.Conversation.{StoredGroupConversation}
use i2pchat.Groups.Store.Files.{Bytes, Disk}
use i2pchat.Groups.Store.Operations.{
  load_group_conversation, load_group_state, existing_of, seen_of, append_group_history_entry,
}
use i2pchat.Groups.Wire.Decoding.{DecodedGroupTransportMessage, decode_group_transport_text}
use i2pchat.Groups.Import.Checks.{Core, check_fields, validate_imported_group_transport}
use i2pchat.Groups.Import.Snapshot.{
  members_or_none, merge_group_state_snapshot, imported_state, build_group_history_entry,
}

pub data GroupImportStatus : Type 0 where
  imported duplicate invalid : GroupImportStatus

-- The text of an error is left out.
pub record GroupImportResult : Type 0 where
  pub status : GroupImportStatus
  pub envelope : Option (GroupEnvelope Json)
  pub state : Option GroupState
  pub source_peer : Option Str

-- `_emit_error`, `_emit_message`, `_emit_notify` and `_on_group_membership_changed`
pub data Event : Type 0 where
  error_shown : Event
  message_shown notified : GroupEnvelope Json → GroupState → Option Str → Event
  membership_changed : List Str → Option ℕ → GroupState → Event

pub record ImportState : Type 0 where
  pub disk : Disk
  pub sequences : Sequences
  pub events : List Event

abbrev pub emit : List Event → ImportState → ImportState
emit more s = record s { events = s.events ++ more }

-- What is shown of a message that was stored
unfoldable pub shown : GroupEnvelope Json → GroupState → Option Str → List Event
shown envelope state source = elim envelope.content_type [
  | group_text ↦ message_shown envelope state source ∷ notified envelope state source ∷ []
  | group_control ↦ message_shown envelope state source ∷ []
]

abbrev pub state_of : Option StoredGroupConversation → Option GroupState
state_of none = none
state_of (some c) = some c.state

abbrev pub epoch_of : Option GroupState → Option ℕ
epoch_of none = none
epoch_of (some s) = some s.epoch

-- The next number of a record, `1` where there is none
abbrev pub next_or_one : Option StoredGroupConversation → ℕ
next_or_one none = 1
next_or_one (some c) = c.next_group_seq

-- `_load_group_conversation` primes the sequence of the group.
unfoldable pub prime : Str → Option StoredGroupConversation → Sequences → Sequences
prime group_id none seqs = seqs
prime group_id (some c) seqs = prime_group_sequence group_id c.next_group_seq seqs

-- The same where what is loaded may be refused
unfoldable pub prime_loaded : Str → Option (Option StoredGroupConversation) → Sequences → Sequences
prime_loaded group_id none seqs = seqs
prime_loaded group_id (some existing) seqs = prime group_id existing seqs

unfoldable pub result :
    GroupImportStatus → DecodedGroupTransportMessage → Option GroupState → Str → GroupImportResult
result status m state source = record {
  status = status;
  envelope = some m.envelope;
  state = state;
  source_peer = or_none source;
}

-- The result for a text that cannot be decoded
abbrev pub undecoded : GroupImportResult
undecoded = record { status = invalid; envelope = none; state = none; source_peer = none }

-- `source_peer or sender_id`
unfoldable pub source_or : Option Str → Str → Str
source_or none sender_id = sender_id
source_or (some peer) sender_id = if is_empty peer then sender_id else peer

-- The result after the append: a message that is new is shown.
unfoldable pub stored_result :
    DecodedGroupTransportMessage
    → Option GroupState
    → Str
    → StoredGroupConversation
    → Bool
    → ImportState
    → GroupImportResult × ImportState
stored_result m old source c new s =
    if new
    then (
      result imported m (some c.state) source,
      emit
          (shown m.envelope c.state (or_none source)
            ++ membership_changed (members_or_none old) (epoch_of old) c.state ∷ [])
          s,
    )
    else (result duplicate m (some c.state) source, s)

module _ (core : Core) where
  -- The part that stores the message; `none` is an exception.
  unfoldable pub store_message :
      ℤ
      → Bytes
      → DecodedGroupTransportMessage
      → Str
      → Str
      → Option StoredGroupConversation
      → ImportState
      → Option (GroupImportResult × ImportState)
  store_message now fresh m history_source source existing s = do
    state ←
        imported_state core (merge_group_state_snapshot core (state_of existing) m.state m.envelope)
          m.envelope
    entry ← build_group_history_entry core m.envelope history_source
    r ←
        append_group_history_entry core.env now fresh state entry
          (some (pos (max (m.envelope.group_seq + 1) (next_or_one existing)))) s.disk
    let after = record s { disk = r.2 }
    some (stored_result m (state_of existing) source r.0 r.1 after)

  -- The part that follows the checks
  unfoldable pub import_checked :
      ℤ
      → Bytes
      → DecodedGroupTransportMessage
      → Option Str
      → ImportState
      → Option (GroupImportResult × ImportState)
  import_checked now fresh m source_peer s = do
    let history_source = source_or source_peer m.envelope.sender_id
    source ← normalize_peer_addr core.env.case history_source
    existing ← existing_of (load_group_conversation core.env now m.state.group_id s.disk)
    let s' = record s { sequences = prime m.state.group_id existing s.sequences }
    let msg_id = strip m.envelope.msg_id
    (if not (is_empty msg_id) && str_in msg_id (seen_of existing)
        then some (result duplicate m (state_of existing) source, s')
        else store_message now fresh m history_source source existing
            (record s' { sequences = prime m.state.group_id existing s'.sequences }))

  -- The checks, with the local state that they load
  unfoldable pub validated : ℤ → DecodedGroupTransportMessage → Option Str → Disk → Option Bool
  validated now m source_peer disk = do
    local_state ← load_group_state core.env now (strip m.envelope.group_id) disk
    validate_imported_group_transport core local_state source_peer m

  -- What the checks leave of the state: they load the group once its fields are right.
  unfoldable pub after_checks : ℤ → DecodedGroupTransportMessage → ImportState → ImportState
  after_checks now m s =
      let group_id = strip m.envelope.group_id in
      record s {
        sequences =
            if is_some (check_fields core m)
            then prime_loaded group_id
                (existing_of (load_group_conversation core.env now group_id s.disk)) s.sequences
            else s.sequences;
      }

  -- What becomes of a message: refused, or imported
  unfoldable pub import_message :
      ℤ
      → Bytes
      → DecodedGroupTransportMessage
      → Option Str
      → ImportState
      → Option (GroupImportResult × ImportState)
  import_message now fresh m source_peer s = elim (validated now m source_peer s.disk) [
    | none ↦ do
      source ← normalize_peer_addr core.env.case (source_or source_peer m.envelope.sender_id)
      some (result invalid m (some m.state) source, emit (error_shown ∷ []) (after_checks now m s))
    | some _ ↦ import_checked now fresh m source_peer (after_checks now m s)
  ]

  -- `import_group_transport` at a time; `fresh` is what `secrets.token_bytes` returns. The outer `none` is an
  -- exception, the inner one a text that is no group message.
  unfoldable pub import_group_transport :
      ℤ → Bytes → Str → Option Str → ImportState → Option (Option GroupImportResult × ImportState)
  import_group_transport now fresh text source_peer s =
      elim (decode_group_transport_text core.env.case core.env.repr core.time core.loads text) [
        | none ↦ some (some undecoded, emit (error_shown ∷ []) s)
        | some none ↦ some (none, s)
        | some (some m) ↦ do r ← import_message now fresh m source_peer s; some (some r.0, r.1)
      ]
