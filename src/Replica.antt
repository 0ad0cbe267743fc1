-- ===== src/Replica.antt =====
-- `BlindBoxLocalReplicaServer._handle` of i2pchat/blindbox/blindbox_local_replica.py, on the bytes that
-- a connection sends. Between the test on a key and its write nothing is awaited, so connections meet in
-- the storage one after the other. A line stays within the limit of the stream reader. What `bytes.decode("utf-8", errors="ignore")` reads is a parameter.
pub mod Keeps
pub mod Reads
use i2pchat.Prelude.{
  ℕ, zero, suc, ◌+◌, Bool, true, false, ◌&&◌, ◌||◌, not, Option, none, some, List, [], ◌∷◌, ◌++◌,
  ltb, leb, ◌==◌, if◌then◌else◌, is_empty, is_some, length, take, drop, all, ℤ, pos, negsuc,
}
use i2pchat.Text.{Str, codes, str_eq}
use i2pchat.Text.Strip.{strip, is_space}
use i2pchat.Text.Order.{parse_int}
use i2pchat.Dict.{Dict, lookup, has_key, put}

abbrev pub Bytes : Type 0
Bytes = List ℕ

abbrev pub Storage : Type 0
Storage = Dict Bytes

pub record ReplicaServer : Type 0 where
  pub max_blob_size : ℕ
  pub max_entries : ℕ
  pub auth_token : Str

pub data Reply : Type 0 where
  pong ok err exists full miss : Reply
  found : Bytes → Reply

-- `reader.readline()`: the line with its end, or what is left, and the rest
unfoldable pub readline : Bytes → Bytes × Bytes
readline [] = ([], [])
readline (b ∷ stream) =
    let (line, rest) = readline stream in if b == 10 then (b ∷ [], stream) else (b ∷ line, rest)

-- `text.split()`, with the word that is being read
unfoldable pub words : Str → Str → List Str
words word [] = if is_empty word then [] else word ∷ []
words word (c ∷ s) =
    let next = words [] s in
    let longer = words (word ++ c ∷ []) s in
    if is_space c then (if is_empty word then next else word ∷ next) else longer

-- `parts[i]`
unfoldable pub part_at : ℕ → List Str → Option Str
part_at i [] = none
part_at zero (part ∷ parts) = some part
part_at (suc i) (part ∷ parts) = part_at i parts

-- `hmac.compare_digest` of texts, which raises `TypeError` beyond ASCII: `none`
unfoldable pub compare_digest : Str → Str → Option Bool
compare_digest a b =
    if all (λ c. ltb c 128) a && all (λ c. ltb c 128) b then some (str_eq a b) else none

-- What a request does: its replies, the storage, and whether the loop goes on
pub record Answer : Type 0 where
  pub replies : List Reply
  pub storage : Storage
  pub continues : Bool

-- `writer.write(…)` and `return`
abbrev pub last_reply : Reply → Storage → Answer
last_reply r storage = record { replies = r ∷ []; storage = storage; continues = false }

abbrev pub next_reply : Reply → Storage → Answer
next_reply r storage = record { replies = r ∷ []; storage = storage; continues = true }

-- An exception closes the connection.
abbrev pub broken : Storage → Answer
broken storage = record { replies = []; storage = storage; continues = false }

module _ (server : ReplicaServer) where
  -- `_is_probe_authorized`
  unfoldable pub is_probe_authorized : Str → Option Bool
  is_probe_authorized token =
      if is_empty server.auth_token then some true else compare_digest token server.auth_token

  -- `_is_authorized`
  unfoldable pub is_authorized : List Str → ℕ → Option Bool
  is_authorized parts token_index =
      if is_empty server.auth_token then some true else elim (part_at token_index parts) [
        | none ↦ some false
        | some token ↦ compare_digest token server.auth_token
      ]

  -- `size <= 0 or size > self.max_blob_size` refused, and a text that is no number
  unfoldable pub blob_size : Option ℤ → Option ℕ
  blob_size none = none
  blob_size (some (negsuc n)) = none
  blob_size (some (pos n)) = if (n == 0) || ltb server.max_blob_size n then none else some n

  -- The part behind `readexactly`
  unfoldable pub store_blob : Str → Bytes → Storage → Answer
  store_blob key body storage =
      if has_key key storage
      then last_reply exists storage
      else if leb server.max_entries (length storage)
      then last_reply full storage
      else last_reply ok (put key body storage)

  -- The part behind the test on the token; fewer bytes than announced raise `IncompleteReadError`.
  unfoldable pub put_blob : Str → Str → Bytes → Storage → Answer
  put_blob key size stream storage = elim (blob_size (parse_int size)) [
    | none ↦ last_reply err storage
    | some n ↦
        if ltb (length stream) n then broken storage else store_blob key (take n stream) storage
  ]

  unfoldable pub get_blob : Str → Storage → Answer
  get_blob key storage = elim (lookup key storage) [
    | none ↦ last_reply miss storage
    | some blob ↦ last_reply (found blob) storage
  ]

  -- A request under its authorization
  unfoldable pub authorized : Option Bool → Answer → Storage → Answer
  authorized none answer storage = broken storage
  authorized (some false) answer storage = last_reply err storage
  authorized (some true) answer storage = answer

  -- The tests on the command, in their order
  unfoldable pub answer : List Str → Bytes → Storage → Answer
  answer [] stream storage = last_reply err storage
  answer (cmd ∷ []) stream storage =
      if str_eq cmd (codes "PING") then next_reply pong storage else last_reply err storage
  answer (cmd ∷ a ∷ []) stream storage =
      if str_eq cmd (codes "AUTH")
      then elim (is_probe_authorized a) [
        | none ↦ broken storage
        | some accepted ↦ next_reply (if accepted then ok else err) storage
      ]
      else if str_eq cmd (codes "GET")
      then authorized (is_authorized (cmd ∷ a ∷ []) 2) (get_blob a storage) storage
      else last_reply err storage
  answer (cmd ∷ a ∷ b ∷ more) stream storage =
      let parts = cmd ∷ a ∷ b ∷ more in
      if str_eq cmd (codes "PUT")
      then authorized (is_authorized parts 3) (put_blob a b stream storage) storage
      else if str_eq cmd (codes "GET")
      then authorized (is_authorized parts 2) (get_blob a storage) storage
      else last_reply err storage

  module _ (decode : Bytes → Str) where
    -- The loop, with fuel; `none` is a loop that has not ended.
    unfoldable pub handle : ℕ → Bytes → Storage → Option (List Reply × Storage)
    handle zero stream storage = none
    handle (suc fuel) stream storage =
        let (line, rest) = readline stream in
        let a = answer (words [] (strip (decode line))) rest storage in
        let later = handle fuel rest a.storage in
        if is_empty stream
        then some ([], storage)
        else if a.continues
        then elim later [
          | none ↦ none
          | some (replies, storage') ↦ some (a.replies ++ replies, storage')
        ]
        else some (a.replies, a.storage)

    -- A connection: each round reads a byte at least.
    unfoldable pub serve : Bytes → Storage → Option (List Reply × Storage)
    serve stream storage = handle (suc (length stream)) stream storage

    -- Connections one after the other
    unfoldable pub serve_all : List Bytes → Storage → Option Storage
    serve_all [] storage = some storage
    serve_all (stream ∷ streams) storage = elim (serve stream storage) [
      | none ↦ none
      | some (replies, storage') ↦ serve_all streams storage'
    ]
