-- ===== src/Groups/Wire/Encoding.antt =====
-- The encoding of group messages in i2pchat/groups/wire.py. `Dumps` is `json.dumps` of an object, with sorted
-- keys and escapes.
use i2pchat.Prelude.{
  ℕ, Option, none, some, List, [], ◌∷◌, ◌++◌, ◌==◌, if◌then◌else◌, length, map, pos, get_or,
}
use i2pchat.Text.{Str, codes}
use i2pchat.Json.{Json, null, string, array, object, int, from_items, fields}
use i2pchat.BlindBox.{◌>>=◌}
use i2pchat.Dict.{Dict, put}
use i2pchat.Groups.Models.{GroupState, GroupEnvelope, GroupRecipientDeliveryMetadata}
use i2pchat.Groups.Wire.Hex.{to_hex}
use i2pchat.Groups.Wire.Fields.{TimeText, content_type_text}
use i2pchat.Groups.Wire.Decoding.{Loads, group_transport_prefix, group_blindbox_scope}

abbrev pub Dumps : Type 0
Dumps = Dict Json → Str

-- A text, or `None`
abbrev pub text_or_null : Option Str → Json
text_or_null none = null
text_or_null (some s) = string s

module _ (time : TimeText) where
  -- The fields that both versions have
  abbrev pub body_fields : GroupState → GroupEnvelope Json → Dict Json
  body_fields state envelope =
      (codes "group_id", string state.group_id)
      ∷ (codes "group_title", text_or_null state.title)
      ∷ (codes "members", array (from_items (map string state.members)))
      ∷ (codes "epoch", int (pos envelope.epoch))
      ∷ (codes "msg_id", string envelope.msg_id)
      ∷ (codes "sender_id", string envelope.sender_id)
      ∷ (codes "group_seq", int (pos envelope.group_seq))
      ∷ (codes "content_type", string (content_type_text envelope.content_type))
      ∷ (codes "payload", get_or null envelope.payload)
      ∷ (codes "created_at", string (time.isoformat envelope.created_at))
      ∷ []

  unfoldable pub message_v1 :
      GroupState → GroupEnvelope Json → GroupRecipientDeliveryMetadata → Dict Json
  message_v1 state envelope metadata =
      (codes "transport", string (codes "group"))
        ∷ (codes "version", int (pos 1))
        ∷ body_fields state envelope
      ++ (codes "recipient_id", string metadata.recipient_id)
        ∷ (codes "delivery_id", string metadata.delivery_id)
        ∷ []

  -- `encode_group_transport_text`
  unfoldable pub encode_group_transport_text :
      Dumps → GroupState → GroupEnvelope Json → GroupRecipientDeliveryMetadata → Str
  encode_group_transport_text dumps state envelope metadata =
      group_transport_prefix ++ dumps (message_v1 state envelope metadata)

  unfoldable pub message_v3 : GroupState → GroupEnvelope Json → List ℕ → Dict Json
  message_v3 state envelope signer_key =
      (codes "transport", string (codes "group"))
        ∷ (codes "version", int (pos 3))
        ∷ (codes "delivery_scope", string group_blindbox_scope)
        ∷ body_fields state envelope
      ++ (codes "signer_key", string (to_hex signer_key)) ∷ []

  -- `group_blindbox_signature_payload`, which is ASCII; `none` is the `ValueError`.
  unfoldable pub group_blindbox_signature_payload :
      Dumps → GroupState → GroupEnvelope Json → List ℕ → Option Str
  group_blindbox_signature_payload dumps state envelope signer_key =
      if length signer_key == 32 then some (dumps (message_v3 state envelope signer_key)) else none

  -- The object of a text with the signature added
  unfoldable pub signed_fields : List ℕ → Option Json → Option (Dict Json)
  signed_fields signature (some (object fs)) =
      some (put (codes "signature") (string (to_hex signature)) (fields fs))
  signed_fields signature _ = none

  -- `encode_group_transport_text_v2`
  unfoldable pub encode_group_transport_text_v2 :
      Dumps → Loads → GroupState → GroupEnvelope Json → List ℕ → List ℕ → Option Str
  encode_group_transport_text_v2 dumps loads state envelope signer_key signature =
      if length signature == 64
      then (do
        text ← group_blindbox_signature_payload dumps state envelope signer_key
        payload ← signed_fields signature (loads text)
        some (group_transport_prefix ++ dumps payload))
      else none
