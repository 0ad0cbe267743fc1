-- ===== src/Groups/Manager/Sending.antt =====
-- `_build_envelope` and the sends of i2pchat/groups/manager.py.
use i2pchat.Prelude.{ℕ, Option, none, some, List, []}
use i2pchat.Text.{Str}
use i2pchat.Text.Case.{CaseMapping}
use i2pchat.PeerAddress.{normalize_member_id}
use i2pchat.Session.State.{Clock, SessionManager}
use i2pchat.Groups.Models.{
  GroupContentType, group_text, group_control, GroupState, GroupEnvelope, GroupSendResult,
}
use i2pchat.Groups.Manager.{
  Sender, Sequences, next_group_seq, metadata_for, recipient_ids, deliver_all,
}

module _ (u : CaseMapping) {P : Type 0} where
  -- `_build_envelope`, with what the id factory and the clock return
  unfoldable pub build_envelope :
      Str
      → ℕ
      → GroupState
      → Str
      → P
      → GroupContentType
      → List Str
      → Sequences
      → GroupEnvelope P × Sequences
  build_envelope msg_id created_at state sender_id payload content_type recipients seqs =
      let (seq, seqs') = next_group_seq state.group_id seqs in
      (
        record {
          group_id = state.group_id;
          epoch = state.epoch;
          msg_id = msg_id;
          sender_id = normalize_member_id u sender_id;
          group_seq = seq;
          content_type = content_type;
          payload = some payload;
          ciphertext = none;
          created_at = created_at;
          member_metadata = metadata_for msg_id recipients [];
        },
        seqs',
      )

  -- Both content types are supported, so the first test never raises. `none` is the exception of a
  -- sender, or the `KeyError`.
  unfoldable pub send_payload :
      Sender P
      → Sender P
      → (ℕ → Clock)
      → Str
      → ℕ
      → GroupState
      → Str
      → P
      → GroupContentType
      → Str
      → Sequences
      → SessionManager
      → Option (GroupSendResult P × Sequences × SessionManager)
  send_payload send_live send_offline t msg_id now state sender_id payload content_type route seqs
        m =
      let recipients = recipient_ids u state sender_id in
      let (envelope, seqs') =
        build_envelope msg_id now state sender_id payload content_type recipients seqs in
      elim (deliver_all u send_live send_offline t recipients envelope route [] m) [
        | none ↦ none
        | some (results, m') ↦
            some (record { envelope = envelope; delivery_results = results }, seqs', m')
      ]

  unfoldable pub send_text :
      Sender P
      → Sender P
      → (ℕ → Clock)
      → Str
      → ℕ
      → GroupState
      → Str
      → P
      → Str
      → Sequences
      → SessionManager
      → Option (GroupSendResult P × Sequences × SessionManager)
  send_text send_live send_offline t msg_id now state sender_id text route seqs m =
      send_payload send_live send_offline t msg_id now state sender_id text group_text route seqs m

  unfoldable pub send_control :
      Sender P
      → Sender P
      → (ℕ → Clock)
      → Str
      → ℕ
      → GroupState
      → Str
      → P
      → Str
      → Sequences
      → SessionManager
      → Option (GroupSendResult P × Sequences × SessionManager)
  send_control send_live send_offline t msg_id now state sender_id payload route seqs m =
      send_payload send_live send_offline t msg_id now state sender_id payload group_control route
        seqs m
