-- ===== src/Groups/Mesh/Peers.antt =====
-- The peers of the groups that the mesh looks at.
use i2pchat.Prelude.{
  ◌≡◌, refl, ◌∙◌, true, false, ◌||◌, some, List, [], ◌∷◌, ◌++◌, arith, if◌then◌else◌, is_empty, All,
  All-append, All-map, if_rule,
}
use i2pchat.Text.{Str, str_eq, str_eq_iff, str_in, Distinct, str_eq_refl}
use i2pchat.Text.Case.{CaseMapping}
use i2pchat.PeerAddress.{normalize_member_id}
use i2pchat.PeerAddress.Canonical.{normalize_member_id_idem}
use i2pchat.Groups.Models.{GroupState}
use i2pchat.Groups.Models.Members.{IsMember}
use i2pchat.Groups.Mesh.{add_members, add_groups, iter_group_peers}

str_in-append : (s : Str) (xs ys : List Str) → str_in s (xs ++ ys) ≡ str_in s xs || str_in s ys
unfolding str_in
str_in-append s [] ys = refl
str_in-append s (x ∷ xs) ys = ground (arith, str_in-append s xs ys)

Distinct-snoc :
    (x : Str) (xs : List Str) → Distinct xs → str_in x xs ≡ false → Distinct (xs ++ x ∷ [])
unfolding str_in
Distinct-snoc x [] d h = (refl, tt)
Distinct-snoc x (y ∷ ys) d h = (
  str_in-append y ys (x ∷ []) ∙ ground (arith, d.0, str_eq_iff x y, str_eq_iff y x),
  Distinct-snoc x ys d.1 (ground arith),
)

module _ (u : CaseMapping) where
  -- Peers of a group: canonical, not blank, not the local member, and none twice
  abbrev pub ArePeers : Str → List Str → Type 0
  ArePeers local peers = All (λ p. IsMember u p × (str_eq p local ≡ false)) peers × Distinct peers

  -- A member that needs no further peer: it is blank, or the local member, or among the peers.
  abbrev pub IsCovered : Str → List Str → Str → Type 0
  IsCovered local peers member =
      let id = normalize_member_id u member in
      (is_empty id || str_eq id local || str_in id peers) ≡ true

  add_one : (local id : Str) (peers : List Str) → List Str
  add_one local id peers =
      if is_empty id || str_eq id local || str_in id peers then peers else peers ++ id ∷ []

  add_one-ArePeers :
      (local raw : Str) (peers : List Str)
      → ArePeers local peers
      → ArePeers local (add_one local (normalize_member_id u raw) peers)
  unfolding add_one
  add_one-ArePeers local raw peers h =
      let id = normalize_member_id u raw in
      if_rule (ArePeers local) (is_empty id || str_eq id local || str_in id peers) peers
        (peers ++ id ∷ []) (λ _. h)
        (λ e. (
          All-append (λ p. IsMember u p × (str_eq p local ≡ false)) peers (id ∷ []) h.0
              (((normalize_member_id_idem u raw, ground arith), ground arith), tt),
          Distinct-snoc id peers h.1 (ground arith),
        ))

  add_one-keeps :
      (local id member : Str) (peers : List Str)
      → IsCovered local peers member
      → IsCovered local (add_one local id peers) member
  unfolding add_one
  add_one-keeps local id member peers h =
      if_rule (λ ps. IsCovered local ps member) (is_empty id || str_eq id local || str_in id peers)
        peers (peers ++ id ∷ []) (λ _. h)
        (λ _. ground (arith, str_in-append (normalize_member_id u member) peers (id ∷ [])))

  add_one-covers :
      (local member : Str) (peers : List Str)
      → IsCovered local (add_one local (normalize_member_id u member) peers) member
  unfolding add_one str_in
  add_one-covers local member peers =
      let id = normalize_member_id u member in
      if_rule (λ ps. IsCovered local ps member) (is_empty id || str_eq id local || str_in id peers)
        peers (peers ++ id ∷ []) (λ e. e)
        (λ _. ground (arith, str_in-append id peers (id ∷ []), self id))
    where
      self : (id : Str) → str_in id (id ∷ []) ≡ true
      self id = rw (str_in, str_eq_refl id) refl

  members-ArePeers :
      (local : Str) (members peers : List Str)
      → ArePeers local peers
      → ArePeers local (add_members u local members peers)
  unfolding add_members add_one
  members-ArePeers local [] peers h = h
  members-ArePeers local (m ∷ members) peers h =
      members-ArePeers local members (add_one local (normalize_member_id u m) peers)
        (add_one-ArePeers local m peers h)

  members-keep :
      (local : Str) (members peers : List Str) (member : Str)
      → IsCovered local peers member
      → IsCovered local (add_members u local members peers) member
  unfolding add_members add_one
  members-keep local [] peers member h = h
  members-keep local (m ∷ members) peers member h =
      members-keep local members (add_one local (normalize_member_id u m) peers) member
        (add_one-keeps local (normalize_member_id u m) member peers h)

  members-cover :
      (local : Str) (members peers : List Str)
      → All (IsCovered local (add_members u local members peers)) members
  unfolding add_members add_one
  members-cover local [] peers = tt
  members-cover local (m ∷ members) peers =
      let next = add_one local (normalize_member_id u m) peers in
      (
        members-keep local members next m (add_one-covers local m peers),
        members-cover local members next,
      )

  groups-ArePeers :
      (local : Str) (states : List GroupState) (peers : List Str)
      → ArePeers local peers
      → ArePeers local (add_groups u local states peers)
  unfolding add_groups
  groups-ArePeers local [] peers h = h
  groups-ArePeers local (state ∷ states) peers h =
      groups-ArePeers local states _ (members-ArePeers local state.members peers h)

  groups-keep :
      (local : Str) (states : List GroupState) (peers : List Str) (member : Str)
      → IsCovered local peers member
      → IsCovered local (add_groups u local states peers) member
  unfolding add_groups
  groups-keep local [] peers member h = h
  groups-keep local (state ∷ states) peers member h =
      groups-keep local states _ member (members-keep local state.members peers member h)

  groups-cover :
      (local : Str) (states : List GroupState) (peers : List Str)
      → All (λ g. All (IsCovered local (add_groups u local states peers)) g.members) states
  unfolding add_groups
  groups-cover local [] peers = tt
  groups-cover local (state ∷ states) peers =
      let next = add_members u local state.members peers in
      (
        All-map (IsCovered local next) (IsCovered local (add_groups u local states next))
            state.members (groups-keep local states next) (members-cover local state.members peers),
        groups-cover local states next,
      )

  -- The peers of the groups are canonical, not blank, distinct and other than the local member, and each
  -- member of each group is among them, or is blank or the local member.
  pub iter_group_peers-exact :
      (local : Str) (states : List GroupState)
      → is_empty (normalize_member_id u local) ≡ false
      → let peers = iter_group_peers u (some local) states in
        let id = normalize_member_id u local in
        ArePeers id peers × All (λ g. All (IsCovered id peers) g.members) states
  unfolding iter_group_peers
  iter_group_peers-exact local states e =
      let id = normalize_member_id u local in
      rw e (groups-ArePeers id states [] (tt, tt), groups-cover id states [])
