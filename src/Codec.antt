-- ===== src/Codec.antt =====
-- i2pchat/protocol/protocol_codec.py: frames with a magic number, a version and a length. Bytes are
-- numbers below 256, and a stream is the list of the bytes that are still to come.
pub mod Words
pub mod Sync
pub mod RoundTrip
use i2pchat.Prelude.{
  ℕ, suc, ◌+◌, ◌*◌, ◌%◌, ◌^◌, max, Bool, true, false, Option, none, some, List, [], ◌∷◌, ◌++◌, ltb,
  leb, ◌==◌, not, if◌then◌else◌, length, take, drop, is_empty,
}
use i2pchat.Text.{Str, str_eq, str_in}
use i2pchat.Codec.Words.{be_bytes, be_value}

abbrev pub Bytes : Type 0
Bytes = List ℕ

abbrev pub magic : Bytes
magic = 0x89 ∷ b'I' ∷ b'2' ∷ b'P' ∷ []

abbrev pub protocol_version : ℕ
protocol_version = 4

-- `struct.Struct(">4sBBBQI").size`
abbrev pub header_size : ℕ
header_size = 19

pub record ProtocolCodec : Type 0 where
  pub allowed_types : List Str
  pub max_frame_body : ℕ
  pub resync_limit : ℕ

-- `ProtocolCodec(…)`
unfoldable pub init : List Str → ℕ → ℕ → ProtocolCodec
init allowed_types max_frame_body resync_limit = record {
  allowed_types = allowed_types;
  max_frame_body = max_frame_body;
  resync_limit = max header_size resync_limit;
}

pub data CodecError : Type 0 where
  unknown_type : Str → CodecError
  frame_too_large : ℕ → CodecError
  not_one_character : CodecError
  struct_error : CodecError
  unsupported_version : ℕ → CodecError
  resync_limit_exceeded : CodecError
  incomplete_read : CodecError

pub data Result {ℓ} (A : Type ℓ) : Type ℓ where
  ok : A → Result A
  raise : CodecError → Result A

infixl 5 ◌>>=◌
abbrev pub ◌>>=◌ {ℓ κ} : {A : Type ℓ} {B : Type κ} → Result A → (A → Result B) → Result B
ok a >>= f = f a
raise e >>= f = raise e

-- `HEADER_STRUCT.pack(…)`: a byte above 255 or a length of 2³² or more does not fit its field.
unfoldable pub pack_header : ℕ → ℕ → ℕ → ℕ → Result Bytes
pack_header type_byte flags msg_id len =
    if ltb 255 type_byte
    then raise struct_error
    else if leb (2 ^ 32) len
    then raise struct_error
    else ok (
        magic
        ++ protocol_version
          ∷ type_byte
          ∷ flags % 256
          ∷ (be_bytes 8 (msg_id % 2 ^ 64) ++ be_bytes 4 len))

-- `ord(msg_type)` needs one character.
unfoldable pub encode_char : Str → Bytes → ℕ → ℕ → Result Bytes
encode_char (c ∷ []) payload msg_id flags = do
  header ← pack_header c flags msg_id (length payload)
  ok (header ++ payload)
encode_char _ payload msg_id flags = raise not_one_character

unfoldable pub encode : ProtocolCodec → Str → Bytes → ℕ → ℕ → Result Bytes
encode c msg_type payload msg_id flags =
    if not (str_in msg_type c.allowed_types)
    then raise (unknown_type msg_type)
    else if ltb c.max_frame_body (length payload)
    then raise (frame_too_large (length payload))
    else encode_char msg_type payload msg_id flags

pub record DecodedFrame : Type 0 where
  pub msg_type : Str
  pub payload : Bytes
  pub flags : ℕ
  pub msg_id : ℕ

-- `await reader.readexactly(n)`
unfoldable pub readexactly : ℕ → Bytes → Result (Bytes × Bytes)
readexactly n stream =
    if ltb (length stream) n then raise incomplete_read else ok (take n stream, drop n stream)

-- `if len(sync_buf) > len(MAGIC): del sync_buf[0]`
unfoldable pub slide : Bytes → Bytes
slide (a ∷ b ∷ c ∷ d ∷ e ∷ rest) = b ∷ c ∷ d ∷ e ∷ rest
slide buf = buf

-- The loop that looks for the magic number; what is left is the stream behind it.
unfoldable pub sync : ℕ → Bytes → ℕ → Bytes → Result Bytes
sync limit sync_buf scanned [] = if str_eq sync_buf magic then ok [] else raise incomplete_read
sync limit sync_buf scanned (nxt ∷ stream) =
    let further = sync limit (slide (sync_buf ++ nxt ∷ [])) (scanned + 1) stream in
    if str_eq sync_buf magic
    then ok (nxt ∷ stream)
    else if ltb limit (scanned + 1)
    then raise resync_limit_exceeded
    else further

-- The header behind the magic number, as `struct.unpack(">BBBQI", rest)` reads it, its checks, and
-- the payload
unfoldable pub read_body : ProtocolCodec → Bytes → Bytes → Result (DecodedFrame × Bytes)
read_body c (version ∷ type_byte ∷ flags ∷ words) stream =
    let msg_id = be_value (take 8 words) in
    let msg_len = be_value (drop 8 words) in
    let msg_type = type_byte ∷ [] in
    if not (version == protocol_version)
    then raise (unsupported_version version)
    else if not (str_in msg_type c.allowed_types)
    then raise (unknown_type msg_type)
    else if ltb c.max_frame_body msg_len
    then raise (frame_too_large msg_len)
    else do
      (payload, rest) ← readexactly msg_len stream
      ok (record { msg_type = msg_type; payload = payload; flags = flags; msg_id = msg_id }, rest)
read_body c _ stream = raise struct_error

unfoldable pub read_vnext_frame : ProtocolCodec → Bytes → Bytes → Result (DecodedFrame × Bytes)
read_vnext_frame c first_byte stream = do
  behind ← sync c.resync_limit first_byte 1 stream
  (rest, body) ← readexactly 15 behind
  read_body c rest body

unfoldable pub read_frame : ProtocolCodec → Bytes → Result (DecodedFrame × Bytes)
read_frame c stream = do (first, stream') ← readexactly 1 stream; read_vnext_frame c first stream'
