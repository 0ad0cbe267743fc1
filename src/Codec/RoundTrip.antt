-- ===== src/Codec/RoundTrip.antt =====
-- A frame that was encoded is read back, also behind bytes that are not a frame.
use i2pchat.Prelude.{
  ℕ, ◌+◌, ◌%◌, ◌^◌, ◌≤◌, ◌<◌, ◌≡◌, refl, ◌∙◌, ap, true, false, [], ◌∷◌, ◌++◌, arith, ltb, length,
  take, drop, take-append, drop-append, length-append, append_assoc,
}
use i2pchat.Text.{str_in}
use i2pchat.Codec.Words.{be_bytes, be_value, length-be_bytes, be_value-be_bytes}
use i2pchat.Codec.{
  Bytes, magic, ProtocolCodec, Result, ok, raise, ◌>>=◌, pack_header, encode_char, encode,
  DecodedFrame, readexactly, read_body, read_vnext_frame, read_frame,
}
use i2pchat.Codec.Sync.{IsJunk, sync_junk, sync_first}

-- The fifteen bytes behind the magic number
abbrev header : ℕ → ℕ → ℕ → ℕ → Bytes
header type_byte flags msg_id len =
    4 ∷ type_byte ∷ flags % 256 ∷ (be_bytes 8 (msg_id % 2 ^ 64) ++ be_bytes 4 len)

length-header : (x f i n : ℕ) → length (header x f i n) ≡ 15
length-header x f i n = omega (
  arith,
  length-append {0} (be_bytes 8 (i % 2 ^ 64)) (be_bytes 4 n),
  length-be_bytes 8 (i % 2 ^ 64),
  length-be_bytes 4 n,
)

readexactly-append :
    (n : ℕ) (xs ys : Bytes) → length xs ≡ n → readexactly n (xs ++ ys) ≡ ok (xs, ys)
unfolding readexactly
readexactly-append n xs ys h =
    let enough : ltb (length (xs ++ ys)) n ≡ false = ground (arith, length-append xs ys) in
    rw enough (rw (take-append n xs ys h, drop-append n xs ys h))

-- The frame that a reader gets back
abbrev pub frame_of : ℕ → Bytes → ℕ → ℕ → DecodedFrame
frame_of type_byte payload msg_id flags = record {
  msg_type = type_byte ∷ [];
  payload = payload;
  flags = flags % 256;
  msg_id = msg_id % 2 ^ 64;
}

-- What an accepted frame satisfies
record Accepted (c : ProtocolCodec) (x : ℕ) (payload : Bytes) : Type 0 where
  known : str_in (x ∷ []) c.allowed_types ≡ true
  fits : length payload ≤ c.max_frame_body
  word : length payload < 2 ^ 32

read_body-header :
    (c : ProtocolCodec) (x : ℕ) (payload : Bytes) (flags msg_id : ℕ) (rest : Bytes)
    → Accepted c x payload
    → read_body c (header x flags msg_id (length payload)) (payload ++ rest)
      ≡ ok (frame_of x payload msg_id flags, rest)
unfolding read_body
read_body-header c x payload flags msg_id rest a =
    let id = msg_id % 2 ^ 64 in
    let words = be_bytes 8 id ++ be_bytes 4 (length payload) in
    let first : take 8 words ≡ be_bytes 8 id = take-append 8 _ _ (length-be_bytes 8 id) in
    let second : drop 8 words ≡ be_bytes 4 (length payload) =
      drop-append 8 _ _ (length-be_bytes 8 id) in
    let id_back : be_value (take 8 words) ≡ id = rw first (be_value-be_bytes 8 id (omega arith)) in
    let len_back : be_value (drop 8 words) ≡ length payload =
      rw second (be_value-be_bytes 4 (length payload) (omega arith)) in
    let small : ltb c.max_frame_body (length payload) ≡ false = ground arith in
    rw (id_back, len_back, a.known, small)
      (rw (readexactly-append (length payload) payload rest refl))

pack_header-ok :
    (x flags msg_id len : ℕ) (h : Bytes)
    → pack_header x flags msg_id len ≡ ok h
    → (len < 2 ^ 32) × (magic ++ header x flags msg_id len ≡ h)
unfolding pack_header
pack_header-ok x flags msg_id len h e = (ground arith, ground arith)

>>=-eq-ok :
    {A B : Type 0} (r : Result A) (f : A → Result B) {b : B}
    → (r >>= f) ≡ ok b
    → (a : A) × (r ≡ ok a) × (f a ≡ ok b)
>>=-eq-ok (ok a) f h = (a, refl, h)
>>=-eq-ok (raise err) f h = cc

ok-injective : {A : Type 0} {a b : A} → ok a ≡ ok b → a ≡ b
ok-injective e = cc

encode_char-ok :
    (x : ℕ) (payload : Bytes) (msg_id flags : ℕ) (bytes : Bytes)
    → encode_char (x ∷ []) payload msg_id flags ≡ ok bytes
    → (length payload < 2 ^ 32)
      × (magic ++ header x flags msg_id (length payload) ++ payload ≡ bytes)
unfolding encode_char
encode_char-ok x payload msg_id flags bytes e =
    let (h, packed, made) = >>=-eq-ok (pack_header x flags msg_id (length payload)) _ e in
    let (small, same) = pack_header-ok x flags msg_id (length payload) h packed in
    (small, ap (λ hd. hd ++ payload) same ∙ ok-injective made)

encode_char-one :
    (ty payload : Bytes) (msg_id flags : ℕ) (bytes : Bytes)
    → encode_char ty payload msg_id flags ≡ ok bytes
    → (x : ℕ) × (ty ≡ x ∷ [])
unfolding encode_char
encode_char-one [] payload msg_id flags bytes e = cc
encode_char-one (x ∷ []) payload msg_id flags bytes e = (x, refl)
encode_char-one (x ∷ y ∷ ty) payload msg_id flags bytes e = cc

-- The tests of `encode`
encode-checks :
    (c : ProtocolCodec) (ty payload : Bytes) (msg_id flags : ℕ) (bytes : Bytes)
    → encode c ty payload msg_id flags ≡ ok bytes
    → (str_in ty c.allowed_types ≡ true)
      × (length payload ≤ c.max_frame_body)
      × (encode_char ty payload msg_id flags ≡ ok bytes)
unfolding encode
encode-checks c ty payload msg_id flags bytes e = (ground arith, ground arith, ground arith)

-- What `encode` accepts, and what it makes
encode-ok :
    (c : ProtocolCodec) (ty payload : Bytes) (msg_id flags : ℕ) (bytes : Bytes)
    → encode c ty payload msg_id flags ≡ ok bytes
    → (x : ℕ) × (ty ≡ x ∷ [])
      × Accepted c x payload
      × (magic ++ header x flags msg_id (length payload) ++ payload ≡ bytes)
encode-ok c ty payload msg_id flags bytes e =
    let (known, fits, coded) = encode-checks c ty payload msg_id flags bytes e in
    let (x, one) = encode_char-one ty payload msg_id flags bytes coded in
    let (word, made) = encode_char-ok x payload msg_id flags bytes (rw one at coded) in
    (x, one, record { known = rw one at known; fits = fits; word = word }, made)

-- Up to the magic number
read_frame-magic :
    (c : ProtocolCodec) (junk stream : Bytes)
    → IsJunk junk
    → length junk + 4 ≤ c.resync_limit
    → read_frame c (junk ++ magic ++ stream)
      ≡ (do (rest, body) ← readexactly 15 stream; read_body c rest body)
unfolding read_frame read_vnext_frame
read_frame-magic c [] stream j h =
    rw (readexactly-append 1 (0x89 ∷ []) (b'I' ∷ b'2' ∷ b'P' ∷ stream) refl)
      (rw (sync_first c.resync_limit stream (omega arith)))
read_frame-magic c (b ∷ junk) stream j h =
    rw (readexactly-append 1 (b ∷ []) (junk ++ magic ++ stream) refl) (
      rw (
        sync_junk c.resync_limit 1 (b ∷ []) junk stream ((j.0, tt), omega arith, omega arith) j.1
          (omega arith)))

-- A frame that `encode` made is read back behind any bytes that do not hold the first byte of the
-- magic number, if they and the magic number stay within the resync limit: the reader returns its
-- type, its payload, and its flags and message id as they fit their fields, and leaves what follows.
pub read_frame-encode :
    (c : ProtocolCodec) (ty payload : Bytes) (msg_id flags : ℕ) (junk bytes rest : Bytes)
    → encode c ty payload msg_id flags ≡ ok bytes
    → IsJunk junk
    → length junk + 4 ≤ c.resync_limit
    → (x : ℕ) × (ty ≡ x ∷ [])
      × (read_frame c (junk ++ bytes ++ rest) ≡ ok (frame_of x payload msg_id flags, rest))
read_frame-encode c ty payload msg_id flags junk bytes rest e j h =
    let (x, one, accepted, made) = encode-ok c ty payload msg_id flags bytes e in
    let head = header x flags msg_id (length payload) in
    let split : junk ++ bytes ++ rest ≡ junk ++ magic ++ (head ++ (payload ++ rest)) =
      rw (← made) (simp append_assoc) in
    (
      x,
      one,
      rw split (
          rw (read_frame-magic c junk (head ++ (payload ++ rest)) j h) (
            rw
              (readexactly-append 15 head (payload ++ rest)
                (length-header x flags msg_id (length payload)))
              (read_body-header c x payload flags msg_id rest accepted))),
    )
