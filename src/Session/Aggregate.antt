-- ===== src/Session/Aggregate.antt =====
-- `_derive_aggregate_peer_state` picks the peer state of the highest rank.
use i2pchat.Prelude.{
  ℕ, ◌≤◌, ◌≡◌, refl, sym, subst, ◌∙◌, ap, Bool, ◌||◌, ◌⊎◌, inl, inr, [], ◌∷◌, arith, leb,
  if◌then◌else◌, Bool-cases,
}
use i2pchat.Dict.{Dict, Entries, any_value}
use i2pchat.Session.State.{
  PeerState, disconnected, connecting, handshaking, secure, stale, failed, peer_state_eq,
  PeerTransportState,
}
use i2pchat.Session.Peers.{in_state, derive_aggregate_peer_state}
use i2pchat.Session.Views.Table.{chain, derive_chain}

abbrev pub rank : PeerState → ℕ
rank disconnected = 0
rank failed = 1
rank stale = 2
rank connecting = 3
rank handshaking = 4
rank secure = 5

higher : PeerState → PeerState → PeerState
higher a b = if leb (rank a) (rank b) then b else a

-- The reference: the state of the highest rank, peer by peer
top : Dict PeerTransportState → PeerState
top [] = disconnected
top ((k, peer) ∷ d) = higher peer.peer_state (top d)

chain_step :
    (s : PeerState) (a b c d e : Bool)
    → chain
        (peer_state_eq s secure || a)
        (peer_state_eq s handshaking || b)
        (peer_state_eq s connecting || c)
        (peer_state_eq s stale || d)
        (peer_state_eq s failed || e)
      ≡ higher s (chain a b c d e)
unfolding peer_state_eq higher
chain_step s a b c d e = ground arith

chain-top :
    (d : Dict PeerTransportState)
    → chain
        (any_value (in_state secure) d)
        (any_value (in_state handshaking) d)
        (any_value (in_state connecting) d)
        (any_value (in_state stale) d)
        (any_value (in_state failed) d)
      ≡ top d
unfolding top any_value
chain-top [] = refl
chain-top ((k, p) ∷ d) = chain_step p.peer_state _ _ _ _ _ ∙ ap (higher p.peer_state) (chain-top d)

derive-top : (d : Dict PeerTransportState) → derive_aggregate_peer_state d ≡ top d
derive-top d = derive_chain d ∙ chain-top d

-- Some peer of the table is in the state.
abbrev pub HasPeerIn : PeerState → Dict PeerTransportState → Type 0
HasPeerIn s [] = ⊥
HasPeerIn s ((k, peer) ∷ d) = (peer.peer_state ≡ s) ⊎ HasPeerIn s d

abbrev pub AllBelow : PeerState → Dict PeerTransportState → Type 0
AllBelow s = Entries (λ k peer. rank peer.peer_state ≤ rank s)

AllBelow-mono :
    (s s' : PeerState) (d : Dict PeerTransportState)
    → rank s ≤ rank s'
    → AllBelow s d
    → AllBelow s' d
AllBelow-mono s s' [] le h = tt
AllBelow-mono s s' ((k, p) ∷ d) le h = (omega arith, AllBelow-mono s s' d le h.1)

higher_above : (a b : PeerState) → (rank a ≤ rank (higher a b)) × (rank b ≤ rank (higher a b))
unfolding higher
higher_above a b = ground arith

higher_one : (a b : PeerState) → (higher a b ≡ a) ⊎ (higher a b ≡ b)
unfolding higher
higher_one a b = elim (Bool-cases (leb (rank a) (rank b))) [
  | inl e ↦ inr (rw e)
  | inr e ↦ inl (rw e)
]

top_above : (d : Dict PeerTransportState) → AllBelow (top d) d
unfolding top
top_above [] = tt
top_above ((k, p) ∷ d) =
    let (here, there) = higher_above p.peer_state (top d) in
    (here, AllBelow-mono (top d) (higher p.peer_state (top d)) d there (top_above d))

top_reached : (d : Dict PeerTransportState) → (top d ≡ disconnected) ⊎ HasPeerIn (top d) d
unfolding top
top_reached [] = inl refl
top_reached ((k, p) ∷ d) = elim (higher_one p.peer_state (top d)) [
  | inl e ↦ inr (inl (sym e))
  | inr e ↦
      subst (λ s. (s ≡ disconnected) ⊎ HasPeerIn s ((k, p) ∷ d)) (sym e)
        (elim (top_reached d) [ inl idle ↦ inl idle | inr peer ↦ inr (inr peer) ])
]

-- No peer of the table ranks above the aggregate state, and the aggregate is `disconnected` or the
-- state of some peer.
pub derive_greatest :
    (d : Dict PeerTransportState)
    → AllBelow (derive_aggregate_peer_state d) d
      × ((derive_aggregate_peer_state d ≡ disconnected)
          ⊎ HasPeerIn (derive_aggregate_peer_state d) d)
derive_greatest d = rw derive-top (top_above d, top_reached d)
