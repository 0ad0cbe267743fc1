-- ===== src/Replica/Keeps.antt =====
-- What the storage of a replica keeps through any connections.
use i2pchat.Prelude.{
  ℕ, zero, suc, ◌≤◌, ◌<◌, ◌≡◌, refl, ◌∙◌, sym, Bool, true, false, ◌||◌, Option, none, some, List,
  [], ◌∷◌, ◌++◌, arith, ltb, leb, ◌==◌, length, take, length-take, Bool-cases, Option-cases, inl,
  inr, if_rule, option_rule, subst, ℤ, pos, negsuc, some-injective,
}
use i2pchat.Text.{Str, codes, str_eq, str_eq_iff}
use i2pchat.Text.Strip.{strip}
use i2pchat.Text.Order.{parse_int}
use i2pchat.Dict.{Dict, lookup, put, lookup-put, Entries, Entries-put}
use i2pchat.Replica.{
  Bytes, Storage, ReplicaServer, Reply, Answer, readline, words, blob_size, store_blob, put_blob,
  get_blob, authorized, answer, is_authorized, is_probe_authorized, handle, serve, serve_all,
}

-- No more entries than the limit, and no blob that is empty or over its limit
abbrev pub IsWithin : ReplicaServer → Storage → Type 0
IsWithin server storage =
    (length storage ≤ server.max_entries)
    × Entries (λ k blob. (0 < length blob) × (length blob ≤ server.max_blob_size)) storage

-- Every blob that was there is still there.
abbrev pub Extends : Storage → Storage → Type 0
Extends before after =
    (k : Str) (blob : Bytes) → lookup k before ≡ some blob → lookup k after ≡ some blob

-- What a request may do to the storage
abbrev Kept : ReplicaServer → Storage → Storage → Type 0
Kept server before after = Extends before after × (IsWithin server before → IsWithin server after)

Kept-same : (server : ReplicaServer) (storage : Storage) → Kept server storage storage
Kept-same server storage = (λ k blob h. h, λ w. w)

Kept-trans :
    (server : ReplicaServer) (a b c : Storage) → Kept server a b → Kept server b c → Kept server a c
Kept-trans server a b c f g = (λ k blob h. g.0 k blob (f.0 k blob h), λ w. g.1 (f.1 w))

length-put {ℓ} : {V : Type ℓ} (k : Str) (v : V) (d : Dict V) → length (put k v d) ≤ suc (length d)
unfolding put
length-put k v [] = omega arith
length-put k v ((j, w) ∷ d) = ground (arith, length-put k v d)

put_new :
    (key k : Str) (body blob : Bytes) (storage : Storage)
    → lookup key storage ≡ none
    → lookup k storage ≡ some blob
    → lookup k (put key body storage) ≡ some blob
put_new key k body blob storage missing h = elim (Bool-cases (str_eq key k)) [
  | inl e ↦
      absurd (cc (sym h ∙ subst (λ j. lookup j storage ≡ none) ((str_eq_iff key k).0 e) missing))
  | inr e ↦ lookup-put key k body storage ∙ rw e h
]

module _ (server : ReplicaServer) where
  store_blob-Kept :
      (key : Str) (body : Bytes) (storage : Storage)
      → 0 < length body
      → length body ≤ server.max_blob_size
      → Kept server storage (store_blob server key body storage).storage
  unfolding store_blob
  store_blob-Kept key body storage pos_size fits =
      let P = λ (a : Answer). Kept server storage a.storage in
      elim (Option-cases (lookup key storage)) [
        | inr (blob, there) ↦ rw there (Kept-same server storage)
        | inl missing ↦ rw missing (
            if_rule P (leb server.max_entries (length storage)) _ _ (λ _. Kept-same server storage)
              (λ room. (
                λ k blob h. put_new key k body blob storage missing h,
                λ w. (
                  ground (arith, length-put key body storage),
                  Entries-put (λ k blob. (0 < length blob) × (length blob ≤ server.max_blob_size))
                      key body storage (pos_size, fits) w.1,
                ),
              )))
      ]

  size_rule :
      (z : Option ℤ) (n : ℕ) → blob_size server z ≡ some n → (0 < n) × (n ≤ server.max_blob_size)
  unfolding blob_size
  size_rule none n h = absurd (cc h)
  size_rule (some (negsuc z)) n h = absurd (cc h)
  size_rule (some (pos z)) n h = elim (Bool-cases ((z == 0) || ltb server.max_blob_size z)) [
    | inl e ↦ absurd (cc (rw e at h))
    | inr e ↦
        subst (λ i. (0 < i) × (i ≤ server.max_blob_size)) (some-injective (rw e at h))
          (ground arith, ground arith)
  ]

  put_blob-Kept :
      (key size : Str) (stream : Bytes) (storage : Storage)
      → Kept server storage (put_blob server key size stream storage).storage
  unfolding put_blob
  put_blob-Kept key size stream storage =
      let P = λ (a : Answer). Kept server storage a.storage in
      option_rule P (blob_size server (parse_int size)) _ _ (λ _. Kept-same server storage)
        (λ n found.
          if_rule P (ltb (length stream) n) _ _ (λ _. Kept-same server storage)
            (λ enough.
              let (low, high) = size_rule (parse_int size) n found in
              store_blob-Kept key (take n stream) storage (ground (arith, length-take n stream))
                (ground (arith, length-take n stream))))

  authorized-Kept :
      (o : Option Bool) (a : Answer) (storage : Storage)
      → Kept server storage a.storage
      → Kept server storage (authorized server o a storage).storage
  unfolding authorized
  authorized-Kept none a storage h = Kept-same server storage
  authorized-Kept (some false) a storage h = Kept-same server storage
  authorized-Kept (some true) a storage h = h

  get_blob-Kept :
      (key : Str) (storage : Storage) → Kept server storage (get_blob server key storage).storage
  unfolding get_blob
  get_blob-Kept key storage =
      option_rule (λ (a : Answer). Kept server storage a.storage) (lookup key storage) _ _
        (λ _. Kept-same server storage) (λ _ _. Kept-same server storage)

  answer-Kept :
      (parts : List Str) (stream : Bytes) (storage : Storage)
      → Kept server storage (answer server parts stream storage).storage
  unfolding answer
  answer-Kept [] stream storage = Kept-same server storage
  answer-Kept (cmd ∷ []) stream storage =
      if_rule (λ (a : Answer). Kept server storage a.storage) (str_eq cmd (codes "PING")) _ _
        (λ _. Kept-same server storage) (λ _. Kept-same server storage)
  answer-Kept (cmd ∷ a ∷ []) stream storage =
      let P = λ (r : Answer). Kept server storage r.storage in
      if_rule P (str_eq cmd (codes "AUTH")) _ _
        (λ _.
          option_rule P (is_probe_authorized server a) _ _ (λ _. Kept-same server storage)
            (λ _ _. Kept-same server storage))
        (λ _.
          if_rule P (str_eq cmd (codes "GET")) _ _
            (λ _.
              authorized-Kept (is_authorized server (cmd ∷ a ∷ []) 2) _ storage
                (get_blob-Kept a storage))
            (λ _. Kept-same server storage))
  answer-Kept (cmd ∷ a ∷ b ∷ more) stream storage =
      let P = λ (r : Answer). Kept server storage r.storage in
      let parts = cmd ∷ a ∷ b ∷ more in
      if_rule P (str_eq cmd (codes "PUT")) _ _
        (λ _.
          authorized-Kept (is_authorized server parts 3) _ storage
            (put_blob-Kept a b stream storage))
        (λ _.
          if_rule P (str_eq cmd (codes "GET")) _ _
            (λ _.
              authorized-Kept (is_authorized server parts 2) _ storage (get_blob-Kept a storage))
            (λ _. Kept-same server storage))

readline-shorter : (b : ℕ) (stream : Bytes) → length (readline (b ∷ stream)).1 ≤ length stream
unfolding readline
readline-shorter b [] = ground arith
readline-shorter b (c ∷ stream) = ground (arith, readline-shorter c stream)

module _ (server : ReplicaServer) (decode : Bytes → Str) where
  -- A connection ends with a storage that is kept.
  Served : Storage → Option (List Reply × Storage) → Type 0
  Served storage o = (r : List Reply × Storage) × (o ≡ some r) × Kept server storage r.1

  handle-Served :
      (fuel : ℕ) (stream : Bytes) (storage : Storage)
      → length stream < fuel
      → Served storage (handle server decode fuel stream storage)
  unfolding handle Served
  handle-Served zero stream storage h = absurd (omega arith)
  handle-Served (suc fuel) [] storage h = (_, refl, Kept-same server storage)
  handle-Served (suc fuel) (b ∷ stream) storage h =
      let (line, rest) = readline (b ∷ stream) in
      let a = answer server (words [] (strip (decode line))) rest storage in
      let kept = answer-Kept server (words [] (strip (decode line))) rest storage in
      let (r, e, later) =
        handle-Served fuel rest a.storage (omega (arith, readline-shorter b stream)) in
      if_rule (Served storage) a.continues _ _
        (λ _.
          ((a.replies ++ r.0, r.1), rw e refl, Kept-trans server storage a.storage r.1 kept later))
        (λ _. (_, refl, kept))

  -- Connections to a replica end, whatever they send. Every blob that was stored stays as it is: the first
  -- write of a key wins. A storage within its limits on entries and on the size of blobs stays within them.
  pub serve_all-Extends :
      (streams : List Bytes) (storage : Storage)
      → (storage' : Storage) × (serve_all server decode streams storage ≡ some storage')
        × Extends storage storage'
        × (IsWithin server storage → IsWithin server storage')
  unfolding serve_all serve Served
  serve_all-Extends [] storage = (storage, refl, λ k blob h. h, λ w. w)
  serve_all-Extends (stream ∷ streams) storage =
      let (r, e, kept) = handle-Served (suc (length stream)) stream storage (omega arith) in
      let (last, f, more, within) = serve_all-Extends streams r.1 in
      let all_kept = Kept-trans server storage r.1 last kept (more, within) in
      (last, rw (e, serve_all) f, all_kept.0, all_kept.1)
