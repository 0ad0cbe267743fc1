-- ===== src/Examples/Wire.antt =====
-- A group message on the wire.
use i2pchat.Prelude.{
  ℕ, ◌+◌, ◌-◌, ◌*◌, ◌≤◌, ◌≡◌, refl, ap, true, false, Option, none, some, List, [], ◌∷◌, ◌++◌, arith,
  length, is_empty,
}
use i2pchat.Text.{Str, codes, str_eq, str_in}
use i2pchat.Text.Strip.{strip, strip_id, no_space, is_space}
use i2pchat.Text.Case.{ascii, ascii_lower}
use i2pchat.Json.{Json, object, string, fields, from_fields, from_items, fields-from_fields}
use i2pchat.Dict.{lookup}
use i2pchat.PeerAddress.{normalize_member_id, normalize_peer_address, host_of, is_host}
use i2pchat.Groups.Models.{GroupEnvelope, group_text, distinct_members}
use i2pchat.Prelude.{zero, suc, All, ◌<◌}
use i2pchat.Dict.{put}
use i2pchat.Groups.Wire.Hex.{to_hex, hex_digit}
use i2pchat.Groups.Wire.Signed.{signed_text, signed_message, decode-encode_v2}
use i2pchat.Groups.Wire.Fields.{TimeText, replace_z, fits, content_type_text}
use i2pchat.Groups.Wire.Decoding.{is_member, decode_group_transport_text}
use i2pchat.Groups.Wire.Encoding.{
  encode_group_transport_text, encode_group_transport_text_v2, message_v1, message_v3,
}
use i2pchat.Groups.Wire.Accepted.{IsMessage, decode_text-IsMessage}
use i2pchat.Groups.Wire.Reads.{IsSendable}
use i2pchat.Groups.Wire.RoundTrip.{JsonObjects, IsDelivery, sent_message, decode-encode}
use i2pchat.Examples.Encoding.Values.{json_value, put_json, size, integer, bool}
use i2pchat.Examples.Groups.{team, metadata}

abbrev pub iso : ℕ → Str
iso t = b'T' ∷ (0x4000 + t) ∷ []

abbrev pub from_iso : Str → Option ℕ
from_iso (a ∷ b ∷ []) = some (b - 0x4000)
from_iso _ = none

pub strip-iso : (t : ℕ) → strip (iso t) ≡ iso t
unfolding no_space is_space
strip-iso t = strip_id (iso t) (ground arith)

pub replace-iso : (t : ℕ) → replace_z (iso t) ≡ iso t
unfolding replace_z
replace-iso t = ground arith

abbrev pub clock_text : TimeText
clock_text = record {
  isoformat = iso;
  fromisoformat = from_iso;
  strip-isoformat = strip-iso;
  isoformat_filled = λ t. refl;
  replace_z-isoformat = replace-iso;
  fromisoformat-isoformat = λ t. ap some (omega arith);
}

abbrev pub first : Option (Json × List ℕ) → Option Json
first none = none
first (some r) = some r.0

abbrev pub json : JsonObjects
json = record {
  dumps = λ d. json_value.put (object (from_fields d)) [];
  loads = λ s. first (json_value.take s);
  loads-dumps = λ d. (
    from_fields d,
    ap first (json_value.take-put (object (from_fields d)) []),
    λ k. ap (lookup k) (fields-from_fields d),
  );
}

abbrev repr : Json → Str
repr j = []

abbrev pub message : GroupEnvelope Json
message = record {
  group_id = codes "g1";
  epoch = 1;
  msg_id = codes "m";
  sender_id = codes "alice";
  group_seq = 1;
  content_type = group_text;
  payload = some (string (codes "hi"));
  ciphertext = none;
  created_at = 5;
  member_metadata = [];
}

sendable : IsSendable ascii team message
unfolding strip is_space distinct_members normalize_member_id normalize_peer_address host_of
    ascii_lower is_host i2pchat.Text.before_suffix? str_eq str_in is_member i2pchat.Prelude.any
    i2pchat.PeerAddress.same_i2p_destination i2pchat.PeerAddress.same_or fits
sendable = record {
  group_ok = (refl, refl);
  title_ok = refl;
  members_ok = refl;
  members_filled = refl;
  sender_ok = (refl, refl);
  sender_filled = (refl, refl);
  sender_in = refl;
  msg_id_ok = (refl, refl);
  seq_ok = omega arith;
  content = string (codes "hi");
  payload_ok = refl;
  fits_ok = refl;
}

to_bob : IsDelivery ascii team metadata
unfolding normalize_member_id strip is_space normalize_peer_address host_of ascii_lower is_host
    i2pchat.Text.before_suffix? str_eq is_member i2pchat.Prelude.any
    i2pchat.PeerAddress.same_i2p_destination i2pchat.PeerAddress.same_or
to_bob = record {
  recipient_ok = (refl, refl);
  recipient_filled = (refl, refl);
  recipient_in = refl;
  delivery_ok = (refl, refl);
}

abbrev text : Str
text = encode_group_transport_text clock_text json.dumps team message metadata

text_short : length text ≤ 512 * 1024
unfolding encode_group_transport_text message_v1 from_fields from_items content_type_text json_value
    put_json size integer bool
text_short = omega arith

decode-encode_example :
    decode_group_transport_text ascii repr clock_text json.loads text
    ≡ some (some (sent_message team message metadata))
decode-encode_example =
    decode-encode ascii repr clock_text json team message metadata sendable to_bob text_short

decode_text-IsMessage_example : IsMessage ascii (sent_message team message metadata)
decode_text-IsMessage_example =
    decode_text-IsMessage ascii repr clock_text json.loads text (sent_message team message metadata)
      (decode-encode ascii repr clock_text json team message metadata sendable to_bob text_short)

-- A byte, `n` times
abbrev bytes : ℕ → List ℕ
bytes zero = []
bytes (suc n) = 0xab ∷ bytes n

bytes-small : (n : ℕ) → All (λ b. b < 256) (bytes n)
bytes-small zero = tt
bytes-small (suc n) = (omega arith, bytes-small n)

signed_short : length (signed_text clock_text json team message (bytes 32) (bytes 64)) ≤ 512 * 1024
unfolding message_v3 to_hex hex_digit put fields from_fields from_items content_type_text json_value
    put_json size integer bool str_eq
signed_short = omega arith

decode-encode_v2_example :
    let text = signed_text clock_text json team message (bytes 32) (bytes 64) in
    (encode_group_transport_text_v2 clock_text json.dumps json.loads team message
        (bytes 32)
        (bytes 64)
      ≡ some text)
    × (decode_group_transport_text ascii repr clock_text json.loads text
        ≡ some (some (signed_message team message (bytes 32) (bytes 64))))
decode-encode_v2_example =
    decode-encode_v2 ascii repr clock_text json team message (bytes 32) (bytes 64) sendable
      (bytes-small 32) refl (bytes-small 64) refl signed_short
