-- ===== src/Groups/Import/Checks.antt =====
-- `_validate_imported_group_transport` of i2pchat/core/i2p_chat_core.py. The texts of errors are left out.
use i2pchat.Prelude.{
  ℕ, Bool, true, false, not, ◌||◌, ◌&&◌, Option, none, some, List, [], leb, ◌==◌, if◌then◌else◌,
  is_empty, length, get_or,
}
use i2pchat.Text.{Str, codes, str_eq}
use i2pchat.Text.Strip.{strip}
use i2pchat.Json.{Json, object, fields, truthy, str_of}
use i2pchat.Dict.{Dict, lookup}
use i2pchat.BlindBox.{◌>>=◌}
use i2pchat.PeerAddress.{normalize_member_id, same_i2p_destination}
use i2pchat.PeerAddress.Typed.{normalize_peer_addr}
use i2pchat.Groups.Models.{group_text, group_control, GroupState, GroupEnvelope}
use i2pchat.Groups.Store.Operations.{Environment}
use i2pchat.Groups.Wire.Hex.{to_hex, from_hex}
use i2pchat.Groups.Wire.Fields.{TimeText, Object, field_or_null, text_field, fits}
use i2pchat.Groups.Wire.Decoding.{
  DecodedGroupTransportMessage, Loads, group_blindbox_scope, require, is_member,
}
use i2pchat.Groups.Wire.Encoding.{Dumps, group_blindbox_signature_payload}

-- What the core has when a text comes: the environment of the store, the texts of JSON and of times, its own
-- address, once it is known, and its signing key, the pinned keys of the peers, and the check of a signature
pub record Core : Type 0 where
  pub env : Environment
  pub time : TimeText
  pub dumps : Dumps
  pub loads : Loads
  pub my_base32 : Option Str
  pub my_signing_public : Option (List ℕ)
  pub peer_trusted_signing_keys : Dict Str
  pub verify_signature : List ℕ → Str → List ℕ → Bool

-- `a == b` of two byte strings, as `secrets.compare_digest` tells it
unfoldable pub same_bytes : List ℕ → List ℕ → Bool
same_bytes a b = str_eq a b

-- `value or ""` of an optional text
abbrev pub or_blank : Option Str → Str
or_blank o = get_or [] o

-- `str(decoded.delivery_scope or "recipient").strip()`
unfoldable pub scope_of : DecodedGroupTransportMessage → Str
scope_of m = strip (if is_empty m.delivery_scope then codes "recipient" else m.delivery_scope)

module _ (core : Core) where
  -- `_local_group_member_id()`, or `""` where it raises
  unfoldable pub local_member : Str
  local_member = normalize_member_id core.env.case (or_blank core.my_base32)

  -- `same_i2p_destination(a, b)`
  abbrev pub same : Str → Str → Bool
  same a b = same_i2p_destination core.env.case a b

  abbrev pub in_roster : Str → GroupState → Bool
  in_roster member_id state = is_member core.env.case member_id state

  -- `str(payload.get(key) or "")` of a payload that is an object
  unfoldable pub raw_field : Object → Str → Str
  raw_field get key =
      let value = field_or_null get key in if truthy value then str_of core.env.repr value else []

  -- `is_self_join`
  unfoldable pub is_self_join : Str → GroupEnvelope Json → Bool
  is_self_join sender_id envelope = elim envelope.content_type [
    | group_text ↦ false
    | group_control ↦ elim envelope.payload [
      | some (object fs) ↦
          let get = λ (key : Str). lookup key (fields fs) in
          let op = core.env.case.lower (text_field core.env.repr get (codes "op")) in
          let joined_member =
            normalize_member_id core.env.case (raw_field get (codes "joined_member_id")) in
          str_eq op (codes "join") && not (is_empty joined_member) && same joined_member sender_id
      | _ ↦ false
    ]
  ]

  -- The sender is in the roster that is known locally, or it announces itself.
  unfoldable pub is_authorized : Option GroupState → Str → GroupEnvelope Json → Bool
  is_authorized none sender_id envelope = true
  is_authorized (some local_state) sender_id envelope =
      in_roster sender_id local_state || is_self_join sender_id envelope

  -- The pinned key of a sender: one's own, or that of the peer
  unfoldable pub trusted_signer_hex : Str → Str → Str
  trusted_signer_hex sender_id normalized_sender =
      if not (is_empty local_member) && same sender_id local_member
      then elim core.my_signing_public [ none ↦ [] | some key ↦ to_hex key ]
      else or_blank (lookup normalized_sender core.peer_trusted_signing_keys)

  -- The checks of a message to one member
  unfoldable pub check_recipient : DecodedGroupTransportMessage → Option Bool
  check_recipient m = do
    addressed ←
        require
          (not (is_empty (or_blank m.recipient_id)) && not (is_empty (or_blank m.delivery_id)))
    member ← require (in_roster (or_blank m.recipient_id) m.state)
    require (is_empty local_member || same (or_blank m.recipient_id) local_member)

  -- The checks of a message to the BlindBox of the group
  unfoldable pub check_blindbox : Str → DecodedGroupTransportMessage → Option Bool
  check_blindbox sender_id m = do
    alone ← require (is_empty (or_blank m.recipient_id) && is_empty (or_blank m.delivery_id))
    signer_key ← m.signer_key
    key_size ← require (length signer_key == 32)
    signature ← m.signature
    signature_size ← require (length signature == 64)
    normalized_sender ← normalize_peer_addr core.env.case sender_id
    let trusted_hex = trusted_signer_hex sender_id normalized_sender
    pinned ← require (not (is_empty trusted_hex))
    trusted_signer ← from_hex trusted_hex
    matching ← require (same_bytes signer_key trusted_signer)
    signed_payload ←
        group_blindbox_signature_payload core.time core.dumps m.state m.envelope signer_key
    verified ← require (core.verify_signature signer_key signed_payload signature)
    require (is_empty local_member || in_roster local_member m.state)

  -- The sender is the peer that the transport authenticated, where it names one.
  unfoldable pub is_bound : Str → Str → Bool
  is_bound sender_id source_peer =
      let source = normalize_member_id core.env.case source_peer in
      is_empty source || same sender_id source

  -- The checks by the scope
  unfoldable pub check_scope : Str → Str → DecodedGroupTransportMessage → Option Bool
  check_scope sender_id source_peer m =
      if str_eq (scope_of m) (codes "recipient")
      then (do bound ← require (is_bound sender_id source_peer); check_recipient m)
      else if str_eq (scope_of m) group_blindbox_scope
      then check_blindbox sender_id m
      else none

  -- The checks before the local state is loaded
  unfoldable pub check_fields : DecodedGroupTransportMessage → Option Bool
  check_fields m = do
    let group_id = strip m.envelope.group_id
    let sender_id = normalize_member_id core.env.case m.envelope.sender_id
    named ← require (not (is_empty group_id))
    same_group ← require (str_eq group_id (strip m.state.group_id))
    with_id ← require (not (is_empty (strip m.envelope.msg_id)))
    sent ← require (not (is_empty sender_id))
    counted ← require (leb 1 m.envelope.group_seq)
    require (in_roster sender_id m.state)

  -- `_validate_imported_group_transport` with the local state; `none` is a `ValueError`.
  unfoldable pub validate_imported_group_transport :
      Option GroupState → Option Str → DecodedGroupTransportMessage → Option Bool
  validate_imported_group_transport local_state source_peer m = do
    let sender_id = normalize_member_id core.env.case m.envelope.sender_id
    fields_ok ← check_fields m
    authorized ← require (is_authorized local_state sender_id m.envelope)
    scoped ← check_scope sender_id (or_blank source_peer) m
    payload ← m.envelope.payload
    require (fits m.envelope.content_type payload)
