-- ===== src/Groups/Store/Sealing.antt =====
-- A group file is read back as it was written, encrypted or not.
use i2pchat.Prelude.{
  ◌≡◌, refl, true, false, ◌||◌, not, Option, none, some, arith, ltb, length, take, drop,
  length-take, length-drop, length-append, take-append, drop-append, is_empty, Bool-cases,
  Option-cases, inl, inr, if_rule, option_rule,
}
use i2pchat.Text.{Str, str_eq, str_eq_refl}
use i2pchat.Dict.{lookup, put}
use i2pchat.Groups.Store.Conversation.{StoredGroupConversation, GroupRecord, serialize}
use i2pchat.Groups.Store.Files.{
  Bytes, Disk, JsonText, Crypto, group_store_magic, group_store_header_size, unpack_version,
  has_magic, salt_of, existing_salt, read_existing_group_salt, salt_or, derive_group_store_key,
  sealed, write_group_payload, unseal, read_group_payload,
}

-- A salt that is taken from a file has the size of a new one.
existing_salt-length : (raw salt : Bytes) → existing_salt raw ≡ some salt → length salt ≡ 32
unfolding existing_salt salt_of
existing_salt-length raw salt =
    if_rule (λ o. o ≡ some salt → length salt ≡ 32) (ltb (length raw) 38 || not (has_magic raw))
      none (some (take 32 (drop 6 raw))) (λ _ h. absurd (cc h))
      (λ e h. ground (arith, length-take 32 (drop 6 raw), length-drop 6 raw))

salt_length :
    (fresh : Bytes) (path : Str) (disk : Disk)
    → length fresh ≡ 32
    → length (salt_or fresh (read_existing_group_salt path disk)) ≡ 32
unfolding salt_or read_existing_group_salt
salt_length fresh path disk h = elim (Option-cases (read_existing_group_salt path disk)) [
  | inl e ↦ rw e h
  | inr (salt, e) ↦
      rw e (
        if_rule (λ s. length s ≡ 32) (is_empty salt) fresh salt (λ _. h)
          (λ _. existing_path salt e))
]
  where
    existing_path :
        (salt : Bytes) → read_existing_group_salt path disk ≡ some salt → length salt ≡ 32
    existing_path salt =
        option_rule (λ o. o ≡ some salt → length salt ≡ 32) (lookup path disk) none existing_salt
          (λ _ e. absurd (cc e)) (λ raw _ e. existing_salt-length raw salt e)

module _ (json : JsonText) (crypto : Crypto) where
  has_magic-dumps : (r : GroupRecord) → has_magic (json.dumps_sorted r) ≡ false
  unfolding has_magic str_eq take
  has_magic-dumps r = let (rest, e) = json.dumps_sorted_brace r in rw e refl

  read-plain :
      (c : StoredGroupConversation) (token : Str) (key : Option Bytes)
      → read_group_payload json crypto (json.dumps_sorted (serialize c)) token key
        ≡ some (serialize c)
  unfolding read_group_payload
  read-plain c token key = rw (has_magic-dumps (serialize c)) (json.loads-dumps_sorted c)

  has_magic-sealed :
      (key salt : Bytes) (token : Str) (r : GroupRecord)
      → has_magic (sealed json crypto key salt token r) ≡ true
  unfolding has_magic sealed take
  has_magic-sealed key salt token r = str_eq_refl group_store_magic

  salt_of-sealed :
      (key salt : Bytes) (token : Str) (r : GroupRecord)
      → length salt ≡ 32
      → salt_of (sealed json crypto key salt token r) ≡ salt
  unfolding salt_of sealed drop
  salt_of-sealed key salt token r h = take-append 32 salt _ h

  version-sealed :
      (key salt : Bytes) (token : Str) (r : GroupRecord)
      → unpack_version (take 2 (drop 4 (sealed json crypto key salt token r))) ≡ 1
  unfolding sealed unpack_version take drop
  version-sealed key salt token r = refl

  ciphertext-sealed :
      (key salt : Bytes) (token : Str) (r : GroupRecord)
      → length salt ≡ 32
      → drop group_store_header_size (sealed json crypto key salt token r)
        ≡ crypto.encrypt_message (derive_group_store_key json crypto key salt token) (json.dumps r)
  unfolding sealed drop
  ciphertext-sealed key salt token r h = drop-append 32 salt _ h

  unseal-sealed :
      (key salt : Bytes) (token : Str) (c : StoredGroupConversation)
      → length salt ≡ 32
      → unseal json crypto (sealed json crypto key salt token (serialize c)) token key
        ≡ some (serialize c)
  unfolding unseal
  unseal-sealed key salt token c h =
      rw
        (
          version-sealed key salt token (serialize c),
          ciphertext-sealed key salt token (serialize c) h,
          salt_of-sealed key salt token (serialize c) h,
        )
        (rw
          (crypto.decrypt-encrypt (derive_group_store_key json crypto key salt token)
            (json.dumps (serialize c)))
          (json.loads-dumps c))

  sealed-length :
      (key salt : Bytes) (token : Str) (r : GroupRecord)
      → length salt ≡ 32
      → ltb (length (sealed json crypto key salt token r)) group_store_header_size ≡ false
  unfolding sealed
  sealed-length key salt token r h =
      let tail =
        crypto.encrypt_message (derive_group_store_key json crypto key salt token) (json.dumps r) in
      ground (arith, length-append salt tail)

  read-sealed :
      (key salt : Bytes) (token : Str) (c : StoredGroupConversation)
      → length salt ≡ 32
      → is_empty key || not crypto.nacl_available ≡ false
      → read_group_payload json crypto
          (sealed json crypto key salt token (serialize c))
          token
          (some key)
        ≡ some (serialize c)
  unfolding read_group_payload
  read-sealed key salt token c h usable =
      rw
        (
          has_magic-sealed key salt token (serialize c),
          sealed-length key salt token (serialize c) h,
          usable,
        )
        (unseal-sealed key salt token c h)

  -- What is written to a path can be read from it with the same key, and no other path is touched.
  pub read-write :
      (fresh : Bytes) (path token : Str) (c : StoredGroupConversation) (key : Option Bytes)
      (disk : Disk)
      → length fresh ≡ 32
      → let after = write_group_payload json crypto fresh path (serialize c) token key disk in
        (raw : Bytes) × (after ≡ put path raw disk)
        × (read_group_payload json crypto raw token key ≡ some (serialize c))
  unfolding write_group_payload
  read-write fresh path token c none disk h =
      (json.dumps_sorted (serialize c), refl, read-plain c token none)
  read-write fresh path token c (some key) disk h =
      let salt = salt_or fresh (read_existing_group_salt path disk) in
      elim (Bool-cases (is_empty key || not crypto.nacl_available)) [
        | inl e ↦ rw e (json.dumps_sorted (serialize c), refl, read-plain c token (some key))
        | inr e ↦ rw e (
          sealed json crypto key salt token (serialize c),
          refl,
          read-sealed key salt token c (salt_length fresh path disk h) e,
        )
      ]
