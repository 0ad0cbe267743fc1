-- ===== src/Session/Views/Table.antt =====
-- Which writes to the peer table leave the derived views as they are.
use i2pchat.Prelude.{
  ◌≡◌, refl, sym, ◌∙◌, ap, Bool, false, none, some, [], ◌∷◌, arith, Bool-cases, inl, inr,
  if◌then◌else◌,
}
use i2pchat.Text.{Str, str_eq}
use i2pchat.Dict.{Dict, lookup, put, keys, any_value, any_value-put, any_value-put_new}
use i2pchat.Session.State.{
  PeerState, disconnected, connecting, handshaking, secure, stale, failed, peer_state_eq,
  OutboundStreamInfo, PeerTransportState,
}
use i2pchat.Session.Peers.{in_state, derive_aggregate_peer_state, merge_peer, merge_streams}

abbrev pub chain : Bool → Bool → Bool → Bool → Bool → PeerState
chain a b c d e =
    if a
    then secure
    else if b
    then handshaking
    else if c
    then connecting
    else if d
    then stale
    else if e
    then failed
    else disconnected

pub derive_chain :
    (d : Dict PeerTransportState)
    → derive_aggregate_peer_state d
      ≡ chain
          (any_value (in_state secure) d)
          (any_value (in_state handshaking) d)
          (any_value (in_state connecting) d)
          (any_value (in_state stale) d)
          (any_value (in_state failed) d)
unfolding derive_aggregate_peer_state any_value
derive_chain [] = refl
derive_chain (e ∷ d) = refl

module _ (k : Str) (v w : PeerTransportState) (d : Dict PeerTransportState) where
  pub derive-put :
      lookup k d ≡ some w
      → v.peer_state ≡ w.peer_state
      → derive_aggregate_peer_state (put k v d) ≡ derive_aggregate_peer_state d
  derive-put e same =
      let at = λ (s : PeerState).
        any_value-put (in_state s) k v w d e (ap (λ x. peer_state_eq x s) same) in
      simp (derive_chain, at secure, at handshaking, at connecting, at stale, at failed)

module _ (k : Str) (v : PeerTransportState) (d : Dict PeerTransportState) where
  pub derive-put_new :
      lookup k d ≡ none
      → v.peer_state ≡ disconnected
      → derive_aggregate_peer_state (put k v d) ≡ derive_aggregate_peer_state d
  unfolding peer_state_eq
  derive-put_new e idle =
      let none_in = λ (s : PeerState) (h : peer_state_eq disconnected s ≡ false).
        any_value-put_new (in_state s) k v d e (ap (λ x. peer_state_eq x s) idle ∙ h) in
      simp (
        derive_chain,
        none_in secure refl,
        none_in handshaking refl,
        none_in connecting refl,
        none_in stale refl,
        none_in failed refl,
      )

merge_peer-keys :
    (owner : Str) (a b : Dict OutboundStreamInfo) (acc : Dict Str)
    → keys a ≡ keys b
    → merge_peer owner a acc ≡ merge_peer owner b acc
unfolding merge_peer
merge_peer-keys owner [] [] acc h = refl
merge_peer-keys owner [] ((j, x) ∷ b) acc h = cc
merge_peer-keys owner ((i, x) ∷ a) [] acc h = cc
merge_peer-keys owner ((i, x) ∷ a) ((j, y) ∷ b) acc h =
    ground (arith, merge_peer-keys owner a b (put i owner acc))

pub merge_streams-put :
    (k : Str) (v w : PeerTransportState) (d : Dict PeerTransportState) (acc : Dict Str)
    → lookup k d ≡ some w
    → keys v.outbound_streams ≡ keys w.outbound_streams
    → merge_streams (put k v d) acc ≡ merge_streams d acc
unfolding lookup put merge_streams
merge_streams-put k v w [] acc e same = cc
merge_streams-put k v w ((j, x) ∷ d) acc e same = elim (Bool-cases (str_eq j k)) [
  | inl here ↦
      let x≡w : x ≡ w = ground arith in
      let old = ap (λ (p : PeerTransportState). keys p.outbound_streams) x≡w in
      rw here (
        ap (merge_streams d)
          (merge_peer-keys j v.outbound_streams x.outbound_streams acc (same ∙ sym old)))
  | inr there ↦
      rw there (merge_streams-put k v w d (merge_peer j x.outbound_streams acc) (ground arith) same)
]

pub merge_streams-put_new :
    (k : Str) (v : PeerTransportState) (d : Dict PeerTransportState) (acc : Dict Str)
    → lookup k d ≡ none
    → v.outbound_streams ≡ []
    → merge_streams (put k v d) acc ≡ merge_streams d acc
unfolding lookup put merge_streams merge_peer
merge_streams-put_new k v [] acc e bare = rw bare
merge_streams-put_new k v ((j, x) ∷ d) acc e bare = elim (Bool-cases (str_eq j k)) [
  | inl here ↦ absurd (ground arith)
  | inr there ↦
      rw there
        (merge_streams-put_new k v d (merge_peer j x.outbound_streams acc) (ground arith) bare)
]
