-- ===== src/Examples/Replica.antt =====
-- A replica with room for two blobs.
use i2pchat.Prelude.{◌≡◌, refl, some, List, [], ◌∷◌, ◌++◌}
use i2pchat.Text.{Str, codes, str_eq}
use i2pchat.Text.Strip.{strip, is_space}
use i2pchat.Text.Order.{parse_int, signed, digits}
use i2pchat.Dict.{lookup}
use i2pchat.Replica.{
  Bytes, Storage, ReplicaServer, serve_all, answer, authorized, is_authorized, put_blob, blob_size,
  store_blob,
}
use i2pchat.Replica.Keeps.{Extends, IsWithin, serve_all-Extends}
use i2pchat.Replica.Reads.{IsReadBack, put-get}

abbrev server : ReplicaServer
server = record { max_blob_size = 100; max_entries = 2; auth_token = [] }

abbrev blobs : Storage
blobs = (codes "k1", 1 ∷ 2 ∷ []) ∷ []

-- Bytes that are read as they are
abbrev decode : Bytes → Str
decode bytes = bytes

abbrev connections : List Bytes
connections =
    (codes "PING" ++ 10 ∷ (codes "PUT k2 1" ++ 10 ∷ 7 ∷ []))
    ∷ (codes "PUT k1 1" ++ 10 ∷ 9 ∷ [])
    ∷ []

serve_all-Extends_example :
    (storage' : Storage) × (serve_all server decode connections blobs ≡ some storage')
    × Extends blobs storage'
    × (IsWithin server blobs → IsWithin server storage')
serve_all-Extends_example = serve_all-Extends server decode connections blobs

put-get_example :
    IsReadBack server
      (codes "k2")
      (codes "2")
      (7 ∷ 8 ∷ [])
      blobs
      (answer server (codes "PUT" ∷ codes "k2" ∷ codes "2" ∷ []) (7 ∷ 8 ∷ []) blobs)
unfolding answer str_eq authorized is_authorized put_blob blob_size parse_int signed strip is_space
    digits store_blob lookup i2pchat.Text.Order.decimal i2pchat.Text.Order.decimal_among
put-get_example = put-get server (codes "k2") (codes "2") (7 ∷ 8 ∷ []) blobs [] refl
