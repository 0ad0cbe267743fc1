-- ===== src/Replica/Reads.antt =====
-- What a PUT that is answered `OK` leaves for a GET.
use i2pchat.Prelude.{
  ℕ, ◌≤◌, ◌≡◌, refl, ◌∙◌, Bool, true, false, Option, none, some, List, [], ◌∷◌, arith, ltb, leb,
  length, take, if_rule, option_rule,
}
use i2pchat.Text.{Str, codes, str_eq, str_eq_refl}
use i2pchat.Text.Order.{parse_int}
use i2pchat.Dict.{lookup, has_key, put, lookup-put}
use i2pchat.Replica.{
  Bytes, Storage, ReplicaServer, ok, found, Answer, blob_size, store_blob, put_blob, get_blob,
  authorized, answer, is_authorized,
}

module _ (server : ReplicaServer) (key size : Str) (stream : Bytes) (storage : Storage) where
  -- The stored blob is what the connection sent behind the request, as many bytes as it announced.
  abbrev pub IsReadBack : Answer → Type 0
  IsReadBack a =
      (n : ℕ) × (blob_size server (parse_int size) ≡ some n)
      × (n ≤ length stream)
      × ((get_blob server key a.storage).replies ≡ found (take n stream) ∷ [])

  IfOk : Answer → Type 0
  IfOk a = a.replies ≡ ok ∷ [] → IsReadBack a

  stored :
      (n : ℕ)
      → blob_size server (parse_int size) ≡ some n
      → ltb (length stream) n ≡ false
      → IfOk (store_blob server key (take n stream) storage)
  unfolding store_blob IfOk get_blob
  stored n e enough =
      if_rule IfOk (has_key key storage) _ _ (λ _ h. absurd (cc h))
        (λ _.
          if_rule IfOk (leb server.max_entries (length storage)) _ _ (λ _ h. absurd (cc h))
            (λ _ h.
              let here : lookup key (put key (take n stream) storage) ≡ some (take n stream) =
                lookup-put key key (take n stream) storage ∙ rw (str_eq_refl key) refl in
              (n, e, ground arith, rw (here, get_blob) refl)))

  put_stored : IfOk (put_blob server key size stream storage)
  unfolding put_blob IfOk
  put_stored =
      option_rule IfOk (blob_size server (parse_int size)) _ _ (λ _ h. absurd (cc h))
        (λ n e.
          if_rule IfOk (ltb (length stream) n) _ _ (λ _ h. absurd (cc h))
            (λ enough. stored n e enough))

  if_authorized :
      (o : Option Bool)
      → IfOk (authorized server o (put_blob server key size stream storage) storage)
  unfolding authorized IfOk
  if_authorized none h = absurd (cc h)
  if_authorized (some false) h = absurd (cc h)
  if_authorized (some true) h = put_stored h

  -- After a PUT that is answered `OK`, reading the key gives back exactly the bytes that were sent behind
  -- the request, as many as it announced, which are not more than the limit and at least one.
  pub put-get :
      (more : List Str)
      → (answer server (codes "PUT" ∷ key ∷ size ∷ more) stream storage).replies ≡ ok ∷ []
      → IsReadBack (answer server (codes "PUT" ∷ key ∷ size ∷ more) stream storage)
  unfolding answer str_eq IfOk
  put-get more h = if_authorized (is_authorized server (codes "PUT" ∷ key ∷ size ∷ more) 3) h
