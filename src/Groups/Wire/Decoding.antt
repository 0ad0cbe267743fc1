-- ===== src/Groups/Wire/Decoding.antt =====
-- The decoding of group messages in i2pchat/groups/wire.py.
use i2pchat.Prelude.{
  ℕ, ◌*◌, Bool, true, false, not, ◌||◌, ◌&&◌, Option, none, some, List, [], ◌∷◌, ltb, ◌==◌,
  if◌then◌else◌, is_empty, is_some, length, any, ℤ, pos, negsuc, get_or,
}
use i2pchat.Text.{Str, codes, str_eq}
use i2pchat.Text.Case.{CaseMapping}
use i2pchat.Json.{Json, string, object, int, int_of, fields}
use i2pchat.Dict.{lookup}
use i2pchat.BlindBox.{◌>>=◌}
use i2pchat.PeerAddress.{normalize_member_id, same_i2p_destination}
use i2pchat.Groups.Models.{
  GroupState, GroupEnvelope, GroupRecipientDeliveryMetadata, make_state, or_none,
}
use i2pchat.Groups.Wire.Hex.{from_hex}
use i2pchat.Text.{after_prefix?}
use i2pchat.Groups.Wire.Fields.{
  Object, TimeText, parse_datetime, field_or_null, text_field, required_text_field,
  required_int_field, content_type_of, fits, member_texts,
}

pub record DecodedGroupTransportMessage : Type 0 where
  pub state : GroupState
  pub envelope : GroupEnvelope Json
  pub recipient_id : Option Str
  pub delivery_id : Option Str
  pub signer_key : Option (List ℕ)
  pub signature : Option (List ℕ)
  pub version : ℕ
  pub delivery_scope : Str

abbrev pub group_transport_prefix : Str
group_transport_prefix = codes "__I2PCHAT_GROUP__:"

abbrev pub max_group_transport_bytes : ℕ
max_group_transport_bytes = 512 * 1024

abbrev pub group_blindbox_scope : Str
group_blindbox_scope = codes "group_blindbox"

-- `if not test: raise ValueError`
abbrev pub require : Bool → Option Bool
require true = some true
require false = none

abbrev pub metadata_of : Str → Str → GroupRecipientDeliveryMetadata
metadata_of recipient_id delivery_id = record {
  recipient_id = recipient_id;
  delivery_id = delivery_id;
  ciphertext = none;
}

-- What `json.loads` makes of a text
abbrev pub Loads : Type 0
Loads = Str → Option Json

unfoldable pub is_string : Str → Json → Bool
is_string s (string t) = str_eq t s
is_string s _ = false

module _ (u : CaseMapping) where
  -- `any(same_i2p_destination(member_id, m) for m in state.members if m)`
  unfoldable pub is_member : Str → GroupState → Bool
  is_member member_id state =
      any (λ m. not (is_empty m) && same_i2p_destination u member_id m) state.members

module _ (repr : Json → Str) where
  -- `bytes.fromhex(_required_text_field(…))` of a given length
  unfoldable pub bytes_field : ℕ → Object → Str → Option (List ℕ)
  bytes_field size get key = do
    value ← required_text_field repr get key
    bytes ← from_hex value
    if length bytes == size then some bytes else none

module _ (u : CaseMapping) (repr : Json → Str) where
  -- `normalize_member_id(_required_text_field(…))`, which may not be blank
  unfoldable pub member_field : Object → Str → Option Str
  member_field get key = do
    value ← required_text_field repr get key
    let member_id = normalize_member_id u value
    if is_empty member_id then none else some member_id

  -- The state that a message names
  unfoldable pub state_field : Object → ℕ → Option GroupState
  state_field get created_at = do
    group_id ← required_text_field repr get (codes "group_id")
    members_raw ← member_texts repr get
    epoch ← required_int_field 0 get (codes "epoch")
    some (
        make_state u group_id epoch members_raw
          (or_none (text_field repr get (codes "group_title"))) created_at created_at)

module _ (u : CaseMapping) (repr : Json → Str) (time : TimeText) where
  -- What both versions read
  unfoldable pub decode_body : Object → Option (GroupState × GroupEnvelope Json)
  decode_body get = do
    type_text ← required_text_field repr get (codes "content_type")
    content_type ← content_type_of type_text
    msg_id ← required_text_field repr get (codes "msg_id")
    sender_id ← member_field u repr get (codes "sender_id")
    created_text ← required_text_field repr get (codes "created_at")
    created_at ← parse_datetime time created_text
    let payload = field_or_null get (codes "payload")
    fitting ← require (fits content_type payload)
    state ← state_field u repr get created_at
    filled ← require (not (is_empty state.members))
    member ← require (is_member u sender_id state)
    group_seq ← required_int_field 1 get (codes "group_seq")
    some (
      state,
      record {
        group_id = state.group_id;
        epoch = state.epoch;
        msg_id = msg_id;
        sender_id = sender_id;
        group_seq = group_seq;
        content_type = content_type;
        payload = some payload;
        ciphertext = none;
        created_at = created_at;
        member_metadata = [];
      },
    )

  -- `_decode_group_transport_v1`
  unfoldable pub decode_group_transport_v1 : Object → Option DecodedGroupTransportMessage
  decode_group_transport_v1 get = do
    body ← decode_body get
    recipient_id ← member_field u repr get (codes "recipient_id")
    delivery_id ← required_text_field repr get (codes "delivery_id")
    member ← require (is_member u recipient_id body.0)
    some (record {
      state = body.0;
      envelope = record body.1 {
        member_metadata = (recipient_id, metadata_of recipient_id delivery_id) ∷ [];
      };
      recipient_id = some recipient_id;
      delivery_id = some delivery_id;
      signer_key = none;
      signature = none;
      version = 1;
      delivery_scope = codes "recipient";
    })

  -- `_decode_group_transport_v3`
  unfoldable pub decode_group_transport_v3 : Object → Option DecodedGroupTransportMessage
  decode_group_transport_v3 get = do
    scope ←
        require
          (str_eq (u.lower (text_field repr get (codes "delivery_scope"))) group_blindbox_scope)
    alone ←
        require (not (is_some (get (codes "recipient_id")) || is_some (get (codes "delivery_id"))))
    signer_key ← bytes_field repr 32 get (codes "signer_key")
    signature ← bytes_field repr 64 get (codes "signature")
    body ← decode_body get
    some (record {
      state = body.0;
      envelope = body.1;
      recipient_id = none;
      delivery_id = none;
      signer_key = some signer_key;
      signature = some signature;
      version = 3;
      delivery_scope = group_blindbox_scope;
    })

  -- The choice by the version; version 2 is refused as any other.
  unfoldable pub decode_version : ℤ → Object → Option DecodedGroupTransportMessage
  decode_version (negsuc n) get = none
  decode_version (pos n) get =
      if n == 1
      then decode_group_transport_v1 get
      else if n == 3
      then decode_group_transport_v3 get
      else none

  -- What follows `json.loads`
  unfoldable pub decode_object : Object → Option DecodedGroupTransportMessage
  decode_object get = do
    group ← require (is_string (codes "group") (field_or_null get (codes "transport")))
    version ← int_of (get_or (int (pos 0)) (get (codes "version")))
    decode_version version get

  unfoldable pub decode_json : Json → Option DecodedGroupTransportMessage
  decode_json (object fs) = decode_object (λ key. lookup key (fields fs))
  decode_json _ = none

  -- `decode_group_transport_text`: the inner `none` is a text that is no group message.
  unfoldable pub decode_group_transport_text :
      Loads → Str → Option (Option DecodedGroupTransportMessage)
  decode_group_transport_text loads raw = elim (after_prefix? group_transport_prefix raw) [
    | none ↦ some none
    | some body ↦
        if ltb max_group_transport_bytes (length raw)
        then none
        else elim (loads body >>= decode_json) [ none ↦ none | some m ↦ some (some m) ]
  ]
