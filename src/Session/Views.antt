-- ===== src/Session/Views.antt =====
-- The views derived from the peer table agree with it after every call.
pub mod Table
pub mod Health
pub mod Methods
pub mod Runs
use i2pchat.Prelude.{
  ◌≡◌, refl, sym, Bool, true, false, [], ◌∷◌, arith, Bool-cases, inl, inr, if◌then◌else◌,
}
use i2pchat.Text.{Str, codes}
use i2pchat.Text.Case.{CaseMapping}
use i2pchat.Session.State.{
  PeerState, peer_state_eq, peer_state_eq_iff, PeerTransportState, SessionManager, Result, ok,
  value_error, ◌>>=◌,
}
use i2pchat.Session.Peers.{
  transition_peer, derive_aggregate_peer_state, merge_streams, rebuild_legacy_outbound_streams,
  sync_legacy_views, ensure_peer_transport,
}
use i2pchat.Session.Calls.{settle}

pub record IsSynced (m : SessionManager) : Type 0 where
  pub state : m.peer_state ≡ derive_aggregate_peer_state m.peer_transport
  pub streams : m.outbound_streams ≡ merge_streams m.peer_transport []

module _ (s : PeerState) (reason : Str) (m : SessionManager) where
  pub peer_state-transition_peer : (transition_peer s reason m).peer_state ≡ s
  unfolding transition_peer
  peer_state-transition_peer = ground (arith, peer_state_eq_iff m.peer_state s)

  pub peer_transport-transition_peer :
      (transition_peer s reason m).peer_transport ≡ m.peer_transport
  unfolding transition_peer
  peer_transport-transition_peer = ground arith

  pub outbound_streams-transition_peer :
      (transition_peer s reason m).outbound_streams ≡ m.outbound_streams
  unfolding transition_peer
  outbound_streams-transition_peer = ground arith

pub sync_legacy_views-IsSynced : (m : SessionManager) → IsSynced (sync_legacy_views m)
unfolding sync_legacy_views rebuild_legacy_outbound_streams
sync_legacy_views-IsSynced m = record {
  state = rw (peer_state-transition_peer, peer_transport-transition_peer);
  streams = rw (outbound_streams-transition_peer, peer_transport-transition_peer);
}
