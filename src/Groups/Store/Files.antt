-- ===== src/Groups/Store/Files.antt =====
-- The file of a group in i2pchat/storage/group_store.py, plain or encrypted. A file is its bytes, a
-- directory a dictionary of files; JSON, SHA-256, HKDF and the cipher are parameters.
use i2pchat.Prelude.{
  ℕ, ◌+◌, ◌*◌, ◌≡◌, Bool, true, ◌||◌, not, Option, none, some, List, [], ◌∷◌, ◌++◌, ltb, ◌==◌,
  length, take, drop, if◌then◌else◌, is_empty,
}
use i2pchat.Text.{Str, codes, str_eq}
use i2pchat.Dict.{Dict, lookup, put}
use i2pchat.Groups.Store.Conversation.{StoredGroupConversation, GroupRecord, serialize}

abbrev pub Bytes : Type 0
Bytes = List ℕ

abbrev pub Disk : Type 0
Disk = Dict Bytes

-- How the object of a file is written and read: `dumps` in an encrypted file, `dumps_sorted` in a plain one,
-- whose text begins with a brace. Record/Written makes one of `json` and of the functions of the store.
pub record JsonText : Type 0 where
  pub dumps : GroupRecord → Bytes
  pub dumps_sorted : GroupRecord → Bytes
  pub loads : Bytes → Option GroupRecord
  pub loads-dumps : (c : StoredGroupConversation) → loads (dumps (serialize c)) ≡ some (serialize c)
  pub loads-dumps_sorted :
      (c : StoredGroupConversation) → loads (dumps_sorted (serialize c)) ≡ some (serialize c)
  pub dumps_sorted_brace : (r : GroupRecord) → (rest : Bytes) × (dumps_sorted r ≡ b'{' ∷ rest)

-- `i2pchat.crypto`, as the store uses it
pub record Crypto : Type 0 where
  pub nacl_available : Bool
  pub sha256_hex : Str → Str
  pub hkdf_extract : Bytes → Bytes → Bytes
  pub hkdf_expand : Bytes → Bytes → ℕ → Bytes
  pub encrypt_message : Bytes → Bytes → Bytes
  pub decrypt_message : Bytes → Bytes → Option Bytes
  pub decrypt-encrypt :
      (key plaintext : Bytes) → decrypt_message key (encrypt_message key plaintext) ≡ some plaintext

abbrev pub group_store_magic : Bytes
group_store_magic = codes "I2GS"

abbrev pub group_store_salt_size : ℕ
group_store_salt_size = 32

abbrev pub group_store_header_size : ℕ
group_store_header_size = 4 + 2 + 32

-- `struct.pack(">H", GROUP_STORE_ENC_VERSION)`
abbrev pub packed_version : Bytes
packed_version = 0 ∷ 1 ∷ []

-- `struct.unpack(">H", two)[0]`
unfoldable pub unpack_version : Bytes → ℕ
unpack_version (a ∷ b ∷ []) = a * 256 + b
unpack_version _ = 0

-- `raw[:4] == GROUP_STORE_MAGIC`
unfoldable pub has_magic : Bytes → Bool
has_magic raw = str_eq (take 4 raw) group_store_magic

-- `raw[6:GROUP_STORE_HEADER_SIZE]`
unfoldable pub salt_of : Bytes → Bytes
salt_of raw = take group_store_salt_size (drop 6 raw)

-- The salt of the bytes that are there
unfoldable pub existing_salt : Bytes → Option Bytes
existing_salt raw =
    if ltb (length raw) group_store_header_size || not (has_magic raw)
    then none
    else some (salt_of raw)

-- `_read_existing_group_salt`
unfoldable pub read_existing_group_salt : Str → Disk → Option Bytes
read_existing_group_salt path disk = elim (lookup path disk) [
  | none ↦ none
  | some raw ↦ existing_salt raw
]

-- `existing or secrets.token_bytes(…)`: an empty salt would not count.
unfoldable pub salt_or : Bytes → Option Bytes → Bytes
salt_or fresh none = fresh
salt_or fresh (some salt) = if is_empty salt then fresh else salt

-- `not identity_key`
unfoldable pub no_key : Option Bytes → Bool
no_key none = true
no_key (some key) = is_empty key

module _ (json : JsonText) (crypto : Crypto) where
  -- `_safe_group_token`
  unfoldable pub safe_group_token : Str → Str
  safe_group_token group_id = crypto.sha256_hex group_id

  -- `_group_record_path`, without the directory
  unfoldable pub group_record_path : Str → Str → Str
  group_record_path profile group_id =
      profile ++ codes ".group." ++ safe_group_token group_id ++ codes ".json"

  -- `_derive_group_store_key`
  unfoldable pub derive_group_store_key : Bytes → Bytes → Str → Bytes
  derive_group_store_key identity_key salt group_token =
      let prk = crypto.hkdf_extract (codes "I2PCHAT-GROUPSTORE") identity_key in
      let profile_key = crypto.hkdf_expand prk (codes "I2PCHAT-GROUPSTORE|profile-key") 32 in
      let prk2 = crypto.hkdf_extract salt profile_key in
      crypto.hkdf_expand prk2 (codes "I2PCHAT-GROUPSTORE|file-key|" ++ group_token) 32

  -- The bytes of an encrypted file
  unfoldable pub sealed : Bytes → Bytes → Str → GroupRecord → Bytes
  sealed identity_key salt group_token payload =
      let file_key = derive_group_store_key identity_key salt group_token in
      group_store_magic
      ++ packed_version
      ++ salt
      ++ crypto.encrypt_message file_key (json.dumps payload)

  -- `_write_group_payload`; `fresh` is what `secrets.token_bytes` returns.
  unfoldable pub write_group_payload : Bytes → Str → GroupRecord → Str → Option Bytes → Disk → Disk
  write_group_payload fresh path payload group_token none disk =
      put path (json.dumps_sorted payload) disk
  write_group_payload fresh path payload group_token (some key) disk =
      if is_empty key || not crypto.nacl_available
      then put path (json.dumps_sorted payload) disk
      else (let salt = salt_or fresh (read_existing_group_salt path disk) in
          put path (sealed key salt group_token payload) disk)

  -- The part of `_read_group_payload` for an encrypted file with a key
  unfoldable pub unseal : Bytes → Str → Bytes → Option GroupRecord
  unseal raw group_token key =
      if unpack_version (take 2 (drop 4 raw)) == 1
      then (let file_key = derive_group_store_key key (salt_of raw) group_token in
          elim (crypto.decrypt_message file_key (drop group_store_header_size raw)) [
            | none ↦ none
            | some plaintext ↦ json.loads plaintext
          ])
      else none

  -- `_read_group_payload` of the bytes of a file; `none` is a `ValueError`.
  unfoldable pub read_group_payload : Bytes → Str → Option Bytes → Option GroupRecord
  read_group_payload raw group_token identity_key =
      if not (has_magic raw)
      then json.loads raw
      else if ltb (length raw) group_store_header_size
      then none
      else elim identity_key [
        | none ↦ none
        | some key ↦
            if is_empty key || not crypto.nacl_available then none else unseal raw group_token key
      ]
