-- ===== src/Groups/Wire/Signed.antt =====
-- Signed texts that i2pchat/groups/wire.py encodes for the BlindBox of a group are decoded to the message they
-- were made of.
use i2pchat.Prelude.{
  ℕ, suc, ◌*◌, ◌/◌, ◌%◌, ◌<◌, ◌≤◌, ◌≡◌, refl, ap, ◌∙◌, fun_ext, true, false, none, some, List, [],
  ◌∷◌, ◌++◌, arith, ltb, ==-refl, if◌then◌else◌, length, All, all, pos,
}
use i2pchat.Text.{Str, codes, str_eq, str_eq_refl}
use i2pchat.Text.Strip.{strip, lstrip, rstrip, is_space, no_space, strip_id}
use i2pchat.Text.Case.{CaseMapping, ascii_lower}
use i2pchat.Json.{Json, string, int, fields, truthy, str_of}
use i2pchat.Dict.{Dict, lookup, put, lookup-put}
use i2pchat.Groups.Models.{GroupState, GroupEnvelope}
use i2pchat.Groups.Wire.Hex.{hex_digit, to_hex, from_hex-to_hex}
use i2pchat.Groups.Wire.Fields.{Object, TimeText, text_field, field_or_null}
use i2pchat.Groups.Wire.Decoding.{
  DecodedGroupTransportMessage, group_transport_prefix, group_blindbox_scope, require, bytes_field,
  decode_group_transport_v3, decode_version, decode_object, decode_group_transport_text,
}
use i2pchat.Groups.Wire.Encoding.{
  message_v3, group_blindbox_signature_payload, signed_fields, encode_group_transport_text_v2,
}
use i2pchat.Groups.Wire.Valid.{IsFilled}
use i2pchat.Groups.Wire.Reads.{
  Reads, IsSendable, sent_state, sent_envelope, decode_body-sent, required_text-string,
  require-true,
}
use i2pchat.Groups.Wire.RoundTrip.{JsonObjects, get_in, decode_text-dumps, decode_object-version}

all_below : (n : ℕ) (s : Str) → all (λ c. ltb c n) s ≡ true → All (λ c. c < n) s
unfolding all
all_below n [] h = tt
all_below n (c ∷ s) h = (ground arith, all_below n s (ground arith))

hex_digit-not_space : (n : ℕ) → n < 16 → is_space (hex_digit n) ≡ false
unfolding hex_digit is_space
hex_digit-not_space n h = ground arith

no_space-to_hex : (bs : List ℕ) → All (λ b. b < 256) bs → no_space (to_hex bs) ≡ true
unfolding no_space to_hex
no_space-to_hex [] h = refl
no_space-to_hex (b ∷ bs) h =
    rw
      (
        hex_digit-not_space (b / 16) (omega (arith, h.0)),
        hex_digit-not_space (b % 16) (omega arith),
      )
      (no_space-to_hex bs h.1)

to_hex-IsFilled :
    (bs : List ℕ) (n : ℕ) → All (λ b. b < 256) bs → length bs ≡ suc n → IsFilled (to_hex bs)
unfolding to_hex
to_hex-IsFilled [] n h e = absurd (omega arith)
to_hex-IsFilled (b ∷ bs) n h e = (strip_id (to_hex (b ∷ bs)) (no_space-to_hex (b ∷ bs) h), refl)

bytes_field-hex :
    (repr : Json → Str) (get : Object) (key : Str) (bs : List ℕ) (n : ℕ)
    → get key ≡ some (string (to_hex bs))
    → All (λ b. b < 256) bs
    → length bs ≡ suc n
    → bytes_field repr (suc n) get key ≡ some bs
unfolding bytes_field
bytes_field-hex repr get key bs n e h size =
    rw
      (
        required_text-string repr get key (to_hex bs) e (to_hex-IsFilled bs n h size),
        from_hex-to_hex bs h,
        size,
        ==-refl (suc n),
      )
      refl

-- An object with the signature added
abbrev signed_in : List ℕ → Dict Json → Object
signed_in signature d key =
    if str_eq (codes "signature") key then some (string (to_hex signature)) else lookup key d

-- The signed message that a state and an envelope give
abbrev pub signed_message :
    GroupState → GroupEnvelope Json → List ℕ → List ℕ → DecodedGroupTransportMessage
signed_message state e signer_key signature = record {
  state = sent_state state e;
  envelope = sent_envelope state e;
  recipient_id = none;
  delivery_id = none;
  signer_key = some signer_key;
  signature = some signature;
  version = 3;
  delivery_scope = group_blindbox_scope;
}

module _ (u : CaseMapping) (repr : Json → Str) (time : TimeText) (state : GroupState)
    (e : GroupEnvelope Json) (key signature : List ℕ) where
  abbrev get_signed : Object
  get_signed = signed_in signature (message_v3 time state e key)

  Reads-v3 : Reads time state e get_signed
  unfolding lookup str_eq message_v3
  Reads-v3 = record {
    group_id = refl;
    title = refl;
    members = refl;
    epoch = refl;
    msg_id = refl;
    sender_id = refl;
    group_seq = refl;
    content_type = refl;
    payload = refl;
    created_at = refl;
  }

  fields-v3 :
      (get_signed (codes "transport") ≡ some (string (codes "group")))
      × (get_signed (codes "version") ≡ some (int (pos 3)))
      × (get_signed (codes "delivery_scope") ≡ some (string group_blindbox_scope))
      × (get_signed (codes "recipient_id") ≡ none)
      × (get_signed (codes "delivery_id") ≡ none)
      × (get_signed (codes "signer_key") ≡ some (string (to_hex key)))
      × (get_signed (codes "signature") ≡ some (string (to_hex signature)))
  unfolding lookup str_eq message_v3
  fields-v3 = (refl, refl, refl, refl, refl, refl, refl)

  scope_lower : u.lower group_blindbox_scope ≡ group_blindbox_scope
  unfolding ascii_lower all
  scope_lower = u.lower_ascii group_blindbox_scope (all_below 128 group_blindbox_scope refl)

  scope_field :
      require (
        str_eq (u.lower (text_field repr get_signed (codes "delivery_scope"))) group_blindbox_scope)
      ≡ some true
  unfolding text_field field_or_null truthy str_of strip lstrip rstrip is_space
  scope_field = rw (fields-v3.2) (
      rw scope_lower (
        require-true (str_eq group_blindbox_scope group_blindbox_scope)
          (str_eq_refl group_blindbox_scope)))

  decode_v3-message :
      IsSendable u state e
      → All (λ b. b < 256) key
      → length key ≡ 32
      → All (λ b. b < 256) signature
      → length signature ≡ 64
      → decode_group_transport_v3 u repr time get_signed
        ≡ some (signed_message state e key signature)
  unfolding decode_group_transport_v3
  decode_v3-message ok kb kl sb sl =
      let f = fields-v3 in
      rw
        (
          scope_field,
          f.3,
          f.4,
          bytes_field-hex repr get_signed (codes "signer_key") key 31 f.5 kb kl,
          bytes_field-hex repr get_signed (codes "signature") signature 63 f.6 sb sl,
          decode_body-sent u repr time state e get_signed Reads-v3 ok,
        )
        refl

module _ (time : TimeText) (json : JsonObjects) (state : GroupState) (e : GroupEnvelope Json)
    (key signature : List ℕ) where
  -- The object that is written, and its text
  abbrev signed_object : Dict Json
  signed_object =
      put (codes "signature") (string (to_hex signature))
        (fields (json.loads-dumps (message_v3 time state e key)).0)

  abbrev pub signed_text : Str
  signed_text = group_transport_prefix ++ json.dumps signed_object

  encode_v2-text :
      length key ≡ 32
      → length signature ≡ 64
      → encode_group_transport_text_v2 time json.dumps json.loads state e key signature
        ≡ some signed_text
  unfolding encode_group_transport_text_v2 group_blindbox_signature_payload signed_fields
  encode_v2-text kl sl =
      let (fs, loaded, _) = json.loads-dumps (message_v3 time state e key) in
      rw (sl, kl) (rw loaded refl)

  signed_object-get : get_in signed_object ≡ signed_in signature (message_v3 time state e key)
  signed_object-get =
      let (fs, _, same) = json.loads-dumps (message_v3 time state e key) in
      let sig = string (to_hex signature) in
      fun_ext (λ k.
        lookup-put (codes "signature") k sig fs'
        ∙ ap (λ o. if str_eq (codes "signature") k then some sig else o) (same k))
    where
      fs' : Dict Json
      fs' = fields (json.loads-dumps (message_v3 time state e key)).0

module _ (u : CaseMapping) (repr : Json → Str) (time : TimeText) where
  -- A message with a key of 32 bytes is encoded with a signature of 64, and the text is decoded to what was
  -- encoded: the state with the epoch and the time of the envelope, the envelope, the key and the signature;
  -- where the text is within the limit of the decoder.
  pub decode-encode_v2 :
      (json : JsonObjects) (state : GroupState) (e : GroupEnvelope Json) (key signature : List ℕ)
      → IsSendable u state e
      → All (λ b. b < 256) key
      → length key ≡ 32
      → All (λ b. b < 256) signature
      → length signature ≡ 64
      → length (signed_text time json state e key signature) ≤ 512 * 1024
      → let text = signed_text time json state e key signature in
        (encode_group_transport_text_v2 time json.dumps json.loads state e key signature
          ≡ some text)
        × (decode_group_transport_text u repr time json.loads text
            ≡ some (some (signed_message state e key signature)))
  unfolding decode_version
  decode-encode_v2 json state e key signature ok kb kl sb sl short =
      let f = fields-v3 u repr time state e key signature in
      let get = signed_in signature (message_v3 time state e key) in
      let m = signed_message state e key signature in
      let decoded : decode_object u repr time get ≡ some m =
        decode_object-version u repr time get (pos 3) f.0 f.1
        ∙ decode_v3-message u repr time state e key signature ok kb kl sb sl in
      let read : decode_object u repr time (get_in (signed_object time json state e key signature))
          ≡ some m =
        ap (decode_object u repr time) (signed_object-get time json state e key signature)
        ∙ decoded in
      (
        encode_v2-text time json state e key signature kl sl,
        decode_text-dumps u repr time json (signed_object time json state e key signature) m read
            short,
      )
