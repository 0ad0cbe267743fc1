-- ===== src/Groups/Wire/Accepted.antt =====
-- What every message satisfies that `decode_group_transport_text` of i2pchat/groups/wire.py accepts.
use i2pchat.Prelude.{
  ℕ, ◌≡◌, refl, subst, true, not, ◌⊎◌, inl, inr, Option, none, some, List, ltb, ◌==◌, ==_iff,
  length, ◌||◌, is_some, ℤ, pos, negsuc, get_or, some-injective,
}
use i2pchat.Text.{Str, codes, str_eq}
use i2pchat.Text.Case.{CaseMapping}
use i2pchat.Json.{Json, object, int, int_of}
use i2pchat.BlindBox.{◌>>=◌}
use i2pchat.Groups.Models.{GroupState, GroupEnvelope, GroupRecipientDeliveryMetadata}
use i2pchat.Groups.Models.Members.{IsMember}
use i2pchat.Groups.Wire.Hex.{from_hex}
use i2pchat.Groups.Wire.Fields.{Object, TimeText, text_field, required_text_field, field_or_null}
use i2pchat.Dict.{Dict}
use i2pchat.Groups.Wire.Decoding.{
  group_blindbox_scope, is_string, DecodedGroupTransportMessage, require, Loads, member_field,
  is_member, decode_body, decode_group_transport_v1, bytes_field, decode_group_transport_v3,
  decode_version, decode_object, decode_json, decode_group_transport_text,
}
use i2pchat.Groups.Wire.Valid.{
  Yields, Yields-bind, Yields-some, Yields-if, require_holds, IsFilled, required_text-IsFilled,
  member_field-IsMember, IsBody, BodyOk, decode_body-IsBody,
}
use i2pchat.Prelude.{option_rule, if_rule}
use i2pchat.Text.{after_prefix?}
use i2pchat.Groups.Wire.Decoding.{group_transport_prefix, max_group_transport_bytes}

module _ (u : CaseMapping) where
  -- A message to one member, or a signed one to the group's BlindBox
  pub record IsAddressed (m : DecodedGroupTransportMessage) : Type 0 where
    pub recipient : Str
    pub delivery : Str
    pub version_1 : m.version ≡ 1
    pub to_recipient : m.recipient_id ≡ some recipient
    pub with_delivery : m.delivery_id ≡ some delivery
    pub recipient_ok : IsMember u recipient
    pub recipient_in : is_member u recipient m.state ≡ true
    pub delivery_ok : IsFilled delivery

  pub record IsSigned (m : DecodedGroupTransportMessage) : Type 0 where
    pub key : List ℕ
    pub signature : List ℕ
    pub version_3 : m.version ≡ 3
    pub no_recipient : m.recipient_id ≡ none
    pub no_delivery : m.delivery_id ≡ none
    pub with_key : m.signer_key ≡ some key
    pub with_signature : m.signature ≡ some signature
    pub key_length : length key ≡ 32
    pub signature_length : length signature ≡ 64

  abbrev pub IsMessage : DecodedGroupTransportMessage → Type 0
  IsMessage m = IsBody u m.state m.envelope × (IsAddressed m ⊎ IsSigned m)

  with_metadata :
      (state : GroupState) (e : GroupEnvelope Json) (d : Dict GroupRecipientDeliveryMetadata)
      → IsBody u state e
      → IsBody u state (record e { member_metadata = d })
  with_metadata state e d ok = record {
    state_ok = ok.state_ok;
    sender_ok = ok.sender_ok;
    msg_id_ok = ok.msg_id_ok;
    sender_in = ok.sender_in;
    same_group = ok.same_group;
    same_epoch = ok.same_epoch;
    seq_ok = ok.seq_ok;
    payload_fits = ok.payload_fits;
  }

module _ (u : CaseMapping) (repr : Json → Str) (time : TimeText) where
  decode_v1-IsMessage :
      (get : Object) → Yields (IsMessage u) (decode_group_transport_v1 u repr time get)
  unfolding decode_group_transport_v1
  decode_v1-IsMessage get =
      let recipient_field = member_field u repr get (codes "recipient_id") in
      let delivery_field = required_text_field repr get (codes "delivery_id") in
      Yields-bind (IsMessage u) (decode_body u repr time get) _ (λ body read.
        Yields-bind (IsMessage u) recipient_field _ (λ r named.
          Yields-bind (IsMessage u) delivery_field _ (λ d sent.
            Yields-bind (IsMessage u) (require (is_member u r body.0)) _ (λ t inside. (
              with_metadata u body.0 body.1 _
                  (Yields-some (BodyOk u) _ body (decode_body-IsBody u repr time get) read),
              inl (record {
                recipient = r;
                delivery = d;
                version_1 = refl;
                to_recipient = refl;
                with_delivery = refl;
                recipient_ok =
                    Yields-some (IsMember u) _ r
                      (member_field-IsMember u repr get (codes "recipient_id")) named;
                recipient_in = require_holds (is_member u r body.0) t inside;
                delivery_ok =
                    Yields-some IsFilled _ d (required_text-IsFilled repr get (codes "delivery_id"))
                      sent;
              }),
            )))))

  bytes_field-length :
      (size : ℕ) (get : Object) (key : Str)
      → Yields (λ (bs : List ℕ). length bs ≡ size) (bytes_field repr size get key)
  unfolding bytes_field
  bytes_field-length size get key =
      let sized = λ (bs : List ℕ). length bs ≡ size in
      Yields-bind sized (required_text_field repr get key) _ (λ value _.
        Yields-bind sized (from_hex value) _ (λ bs _.
          Yields-if sized (length bs == size) (some bs) none ((==_iff (length bs) size).0)
            (λ _. tt)))

  decode_v3-IsMessage :
      (get : Object) → Yields (IsMessage u) (decode_group_transport_v3 u repr time get)
  unfolding decode_group_transport_v3
  decode_v3-IsMessage get =
      let scope =
        str_eq (u.lower (text_field repr get (codes "delivery_scope"))) group_blindbox_scope in
      let alone =
        not (is_some (get (codes "recipient_id")) || is_some (get (codes "delivery_id"))) in
      let sized = λ (n : ℕ) (bs : List ℕ). length bs ≡ n in
      Yields-bind (IsMessage u) (require scope) _ (λ a _.
        Yields-bind (IsMessage u) (require alone) _ (λ b _.
          Yields-bind (IsMessage u) (bytes_field repr 32 get (codes "signer_key")) _ (λ key signed.
            Yields-bind (IsMessage u) (bytes_field repr 64 get (codes "signature")) _
              (λ signature given.
                Yields-bind (IsMessage u) (decode_body u repr time get) _ (λ body read. (
                  Yields-some (BodyOk u) _ body (decode_body-IsBody u repr time get) read,
                  inr (record {
                    key = key;
                    signature = signature;
                    version_3 = refl;
                    no_recipient = refl;
                    no_delivery = refl;
                    with_key = refl;
                    with_signature = refl;
                    key_length =
                        Yields-some (sized 32) _ key
                          (bytes_field-length 32 get (codes "signer_key")) signed;
                    signature_length =
                        Yields-some (sized 64) _ signature
                          (bytes_field-length 64 get (codes "signature")) given;
                  }),
                ))))))

  by_version : (get : Object) (z : ℤ) → Yields (IsMessage u) (decode_version u repr time z get)
  unfolding decode_version
  by_version get (negsuc n) = tt
  by_version get (pos n) =
      Yields-if (IsMessage u) (n == 1) (decode_group_transport_v1 u repr time get) _
        (λ _. decode_v1-IsMessage get)
        (λ _.
          Yields-if (IsMessage u) (n == 3) (decode_group_transport_v3 u repr time get) none
            (λ _. decode_v3-IsMessage get) (λ _. tt))

  decode_object-IsMessage : (get : Object) → Yields (IsMessage u) (decode_object u repr time get)
  unfolding decode_object
  decode_object-IsMessage get =
      Yields-bind (IsMessage u)
        (require (is_string (codes "group") (field_or_null get (codes "transport")))) _
        (λ a _.
          Yields-bind (IsMessage u) (int_of (get_or (int (pos 0)) (get (codes "version")))) _
            (λ version _. by_version get version))

  decode_json-IsMessage : (j : Json) → Yields (IsMessage u) (decode_json u repr time j)
  unfolding decode_json
  decode_json-IsMessage (object fs) = decode_object-IsMessage _
  decode_json-IsMessage _ = tt

  -- Every message that a text decodes to names its group, its texts and its sender, who is one of its
  -- canonical and distinct members; its epoch and its sequence number are in range, its payload is of the
  -- type it names; and it either goes to one of the members, with a delivery id, or carries a key of 32 and a
  -- signature of 64 bytes and goes to none.
  pub decode_text-IsMessage :
      (loads : Loads) (text : Str) (m : DecodedGroupTransportMessage)
      → decode_group_transport_text u repr time loads text ≡ some (some m)
      → IsMessage u m
  unfolding decode_group_transport_text
  decode_text-IsMessage loads text m h =
      option_rule P (after_prefix? group_transport_prefix text) (some none) _ (λ _ e. absurd (cc e))
        (λ body _.
          if_rule P (ltb max_group_transport_bytes (length text)) none _ (λ _ e. absurd (cc e))
            (λ _.
              option_rule P (loads body >>= decode_json u repr time) none (λ m'. some (some m'))
                (λ _ e. absurd (cc e))
                (λ m' found e. subst (IsMessage u) (some-injective (some-injective e)) (
                  Yields-some (IsMessage u) _ m'
                    (Yields-bind (IsMessage u) (loads body) _ (λ j _. decode_json-IsMessage j))
                    found))))
        h
    where
      P : Option (Option DecodedGroupTransportMessage) → Type 0
      P r = r ≡ some (some m) → IsMessage u m
