-- ===== src/Groups/Wire/RoundTrip.antt =====
-- Texts that i2pchat/groups/wire.py encodes are decoded to the message they were made of.
use i2pchat.Prelude.{
  ◌*◌, ◌≤◌, ◌≡◌, refl, ◌∙◌, fun_ext, true, false, Option, none, some, [], ◌∷◌, ◌++◌, arith, ltb,
  length, pos, ℤ,
}
use i2pchat.Text.{Str, codes, str_eq}
use i2pchat.Text.Case.{CaseMapping}
use i2pchat.Json.{Json, Fields, object, string, int, fields, int_of}
use i2pchat.Dict.{Dict, lookup}
use i2pchat.Groups.Models.{GroupState, GroupEnvelope, GroupRecipientDeliveryMetadata}
use i2pchat.Groups.Models.Members.{IsMember}
use i2pchat.Text.{after_prefix?}
use i2pchat.Groups.Wire.Fields.{Object, TimeText, field_or_null}
use i2pchat.Groups.Wire.Decoding.{
  DecodedGroupTransportMessage, metadata_of, group_transport_prefix, max_group_transport_bytes,
  Loads, is_member, is_string, decode_group_transport_v1, decode_version, decode_object,
  decode_json, decode_group_transport_text,
}
use i2pchat.Groups.Wire.Encoding.{message_v1, encode_group_transport_text}
use i2pchat.Groups.Wire.Valid.{IsFilled}
use i2pchat.Groups.Wire.Reads.{
  Reads, IsSendable, sent_state, sent_envelope, decode_body-sent, member_field-string,
  required_text-string, require-true,
}

-- `json.dumps` and `json.loads` of an object, whose keys may come back in another order
pub record JsonObjects : Type 0 where
  pub dumps : Dict Json → Str
  pub loads : Str → Option Json
  pub loads-dumps :
      (d : Dict Json)
      → (fs : Fields) × (loads (dumps d) ≡ some (object fs))
        × ((k : Str) → lookup k (fields fs) ≡ lookup k d)

after_prefix-append : (p s : Str) → after_prefix? p (p ++ s) ≡ some s
unfolding after_prefix?
after_prefix-append [] s = refl
after_prefix-append (c ∷ p) s = ground (arith, after_prefix-append p s)

-- The look-up in an object
abbrev pub get_in : Dict Json → Object
get_in d key = lookup key d

decode_text-loads :
    (u : CaseMapping) (repr : Json → Str) (time : TimeText) (loads : Loads) (raw body : Str)
    (j : Json) (m : DecodedGroupTransportMessage)
    → after_prefix? group_transport_prefix raw ≡ some body
    → ltb max_group_transport_bytes (length raw) ≡ false
    → loads body ≡ some j
    → decode_json u repr time j ≡ some m
    → decode_group_transport_text u repr time loads raw ≡ some (some m)
unfolding decode_group_transport_text
decode_text-loads u repr time loads raw body j m p short e h =
    rw (p, decode_group_transport_text) (rw short (rw e (rw h refl)))

-- A text of an object is decoded as the object is.
pub decode_text-dumps :
    (u : CaseMapping) (repr : Json → Str) (time : TimeText) (json : JsonObjects) (d : Dict Json)
    (m : DecodedGroupTransportMessage)
    → decode_object u repr time (get_in d) ≡ some m
    → length (group_transport_prefix ++ json.dumps d) ≤ 512 * 1024
    → decode_group_transport_text u repr time json.loads (group_transport_prefix ++ json.dumps d)
      ≡ some (some m)
unfolding decode_json
decode_text-dumps u repr time json d m h short =
    let (fs, e, same) = json.loads-dumps d in
    let equal : get_in (fields fs) ≡ get_in d = fun_ext same in
    let read : decode_object u repr time (get_in (fields fs)) ≡ some m = rw equal h in
    decode_text-loads u repr time json.loads (group_transport_prefix ++ json.dumps d) (json.dumps d)
      (object fs) m (after_prefix-append group_transport_prefix (json.dumps d)) (ground arith) e
      read

-- The message to one member that a state, an envelope and metadata give
abbrev pub sent_message :
    GroupState → GroupEnvelope Json → GroupRecipientDeliveryMetadata → DecodedGroupTransportMessage
sent_message state e metadata = record {
  state = sent_state state e;
  envelope = record (sent_envelope state e) {
    member_metadata =
        (metadata.recipient_id, metadata_of metadata.recipient_id metadata.delivery_id) ∷ [];
  };
  recipient_id = some metadata.recipient_id;
  delivery_id = some metadata.delivery_id;
  signer_key = none;
  signature = none;
  version = 1;
  delivery_scope = codes "recipient";
}

module _ (u : CaseMapping) where
  -- Metadata for a member of the group
  pub record IsDelivery (state : GroupState) (metadata : GroupRecipientDeliveryMetadata)
      : Type 0 where
    pub recipient_ok : IsMember u metadata.recipient_id
    pub recipient_filled : IsFilled metadata.recipient_id
    pub recipient_in : is_member u metadata.recipient_id state ≡ true
    pub delivery_ok : IsFilled metadata.delivery_id

module _ (u : CaseMapping) (repr : Json → Str) (time : TimeText) where
  pub decode_object-version :
      (get : Object) (z : ℤ)
      → get (codes "transport") ≡ some (string (codes "group"))
      → get (codes "version") ≡ some (int z)
      → decode_object u repr time get ≡ decode_version u repr time z get
  unfolding decode_object is_string field_or_null int_of str_eq
  decode_object-version get z group version = rw (group, version, decode_object) refl

  Reads-v1 :
      (state : GroupState) (e : GroupEnvelope Json) (metadata : GroupRecipientDeliveryMetadata)
      → Reads time state e (get_in (message_v1 time state e metadata))
  unfolding lookup str_eq message_v1
  Reads-v1 state e metadata = record {
    group_id = refl;
    title = refl;
    members = refl;
    epoch = refl;
    msg_id = refl;
    sender_id = refl;
    group_seq = refl;
    content_type = refl;
    payload = refl;
    created_at = refl;
  }

  group_field :
      (state : GroupState) (e : GroupEnvelope Json) (metadata : GroupRecipientDeliveryMetadata)
      → get_in (message_v1 time state e metadata) (codes "transport")
        ≡ some (string (codes "group"))
  unfolding lookup str_eq message_v1
  group_field state e metadata = refl

  version_field :
      (state : GroupState) (e : GroupEnvelope Json) (metadata : GroupRecipientDeliveryMetadata)
      → get_in (message_v1 time state e metadata) (codes "version") ≡ some (int (pos 1))
  unfolding lookup str_eq message_v1
  version_field state e metadata = refl

  recipient_field :
      (state : GroupState) (e : GroupEnvelope Json) (metadata : GroupRecipientDeliveryMetadata)
      → get_in (message_v1 time state e metadata) (codes "recipient_id")
        ≡ some (string metadata.recipient_id)
  unfolding lookup str_eq message_v1
  recipient_field state e metadata = refl

  delivery_field :
      (state : GroupState) (e : GroupEnvelope Json) (metadata : GroupRecipientDeliveryMetadata)
      → get_in (message_v1 time state e metadata) (codes "delivery_id")
        ≡ some (string metadata.delivery_id)
  unfolding lookup str_eq message_v1
  delivery_field state e metadata = refl

  recipient_in :
      (state : GroupState) (e : GroupEnvelope Json) (metadata : GroupRecipientDeliveryMetadata)
      → IsDelivery u state metadata
      → is_member u metadata.recipient_id (sent_state state e) ≡ true
  unfolding is_member
  recipient_in state e metadata to = to.recipient_in

  decode_v1-message :
      (state : GroupState) (e : GroupEnvelope Json) (metadata : GroupRecipientDeliveryMetadata)
      → IsSendable u state e
      → IsDelivery u state metadata
      → decode_group_transport_v1 u repr time (get_in (message_v1 time state e metadata))
        ≡ some (sent_message state e metadata)
  unfolding decode_group_transport_v1
  decode_v1-message state e metadata ok to =
      let get = get_in (message_v1 time state e metadata) in
      rw
        (
          decode_body-sent u repr time state e get (Reads-v1 state e metadata) ok,
          member_field-string u repr get (codes "recipient_id") metadata.recipient_id
              (recipient_field state e metadata) to.recipient_ok to.recipient_filled,
          required_text-string repr get (codes "delivery_id") metadata.delivery_id
              (delivery_field state e metadata) to.delivery_ok,
          require-true (is_member u metadata.recipient_id (sent_state state e))
              (recipient_in state e metadata to),
        )
        refl

  decode_object-message :
      (state : GroupState) (e : GroupEnvelope Json) (metadata : GroupRecipientDeliveryMetadata)
      → IsSendable u state e
      → IsDelivery u state metadata
      → decode_object u repr time (get_in (message_v1 time state e metadata))
        ≡ some (sent_message state e metadata)
  unfolding decode_version
  decode_object-message state e metadata ok to =
      decode_object-version (get_in (message_v1 time state e metadata)) (pos 1)
        (group_field state e metadata) (version_field state e metadata)
      ∙ decode_v1-message state e metadata ok to

  -- A message to a member of the group, is decoded to what was encoded: the state with the
  -- epoch and the time of the envelope, and the envelope with the metadata of that member alone; where the
  -- text is within the limit of the decoder.
  pub decode-encode :
      (json : JsonObjects) (state : GroupState) (e : GroupEnvelope Json)
      (metadata : GroupRecipientDeliveryMetadata)
      → IsSendable u state e
      → IsDelivery u state metadata
      → length (encode_group_transport_text time json.dumps state e metadata) ≤ 512 * 1024
      → decode_group_transport_text u repr time json.loads
          (encode_group_transport_text time json.dumps state e metadata)
        ≡ some (some (sent_message state e metadata))
  unfolding encode_group_transport_text
  decode-encode json state e metadata ok to short =
      decode_text-dumps u repr time json (message_v1 time state e metadata)
        (sent_message state e metadata) (decode_object-message state e metadata ok to) short
