-- ===== src/Session/Health/Ready.antt =====
-- When a peer's secure channel counts as ready.
use i2pchat.Prelude.{
  ◌≡◌, refl, Bool, false, ◌&&◌, ◌||◌, not, Option, some, arith, Bool-cases, inl, inr, if◌then◌else◌,
  is_empty, [], ◌∷◌,
}
use i2pchat.Text.{Str}
use i2pchat.Text.Case.{CaseMapping}
use i2pchat.PeerAddress.{normalize_peer_id}
use i2pchat.PeerAddress.Canonical.{normalize_peer_id_idem}
use i2pchat.Dict.{lookup}
use i2pchat.Session.State.{Time, secure, stale, peer_state_eq, PeerTransportState, SessionManager}
use i2pchat.Session.Peers.{
  sync_legacy_views, rebuild_legacy_outbound_streams, or_text, resolve_peer_id, transition_peer,
}
use i2pchat.Session.Peers.Rules.{lookup-put_self}
use i2pchat.Session.Health.{
  has_expired, stale_from, refresh_peer_health, channel_ready, is_peer_secure_channel_ready,
}
use i2pchat.Session.Views.{peer_transport-transition_peer}

-- Rebuilding the views leaves the table alone.
pub peer_transport-sync :
    (m : SessionManager) → (sync_legacy_views m).peer_transport ≡ m.peer_transport
unfolding sync_legacy_views rebuild_legacy_outbound_streams
peer_transport-sync m = rw peer_transport-transition_peer

pub treat_stale-sync :
    (m : SessionManager) → (sync_legacy_views m).treat_stale_as_offline ≡ m.treat_stale_as_offline
unfolding sync_legacy_views rebuild_legacy_outbound_streams transition_peer
treat_stale-sync m = ground arith

pub ttl-sync :
    (m : SessionManager) → (sync_legacy_views m).secure_session_ttl ≡ m.secure_session_ttl
unfolding sync_legacy_views rebuild_legacy_outbound_streams transition_peer
ttl-sync m = ground arith

-- What a refresh makes of a peer
unfoldable pub refreshed : Time → Time → PeerTransportState → PeerTransportState
refreshed ttl now peer =
    if has_expired ttl now peer
    then record peer {
      stale_since_mono = stale_from now peer.stale_since_mono;
      peer_state = if peer_state_eq peer.peer_state secure then stale else peer.peer_state;
    }
    else peer

pub or_text_id : (s : Str) → or_text (some s) [] ≡ s
or_text_id [] = refl
or_text_id (c ∷ s) = refl

module _ (u : CaseMapping) (now : Time) (p : Option Str) (m : SessionManager) where
  pub resolve_idem : resolve_peer_id u (some (resolve_peer_id u p)) ≡ resolve_peer_id u p
  unfolding resolve_peer_id
  resolve_idem =
      rw (or_text_id (normalize_peer_id u (or_text p []))) (normalize_peer_id_idem u (or_text p []))

  module _ (peer : PeerTransportState) (named : is_empty (resolve_peer_id u p) ≡ false)
      (found : lookup (resolve_peer_id u p) m.peer_transport ≡ some peer) where
    pub lookup-refresh :
        lookup (resolve_peer_id u p) (refresh_peer_health u now p m).peer_transport
        ≡ some (refreshed m.secure_session_ttl now peer)
    unfolding refresh_peer_health refreshed
    lookup-refresh =
        rw (named, found)
          (elim (Bool-cases (has_expired m.secure_session_ttl now peer)) [
            | inr e ↦ rw e found
            | inl e ↦ elim (Bool-cases (peer_state_eq peer.peer_state secure)) [
              | inl s ↦ rw (e, s) (rw peer_transport-sync (lookup-put_self _ _ _))
              | inr s ↦ rw (e, s) (lookup-put_self _ _ _)
            ]
          ])

    treat_stale-refresh :
        (refresh_peer_health u now p m).treat_stale_as_offline ≡ m.treat_stale_as_offline
    unfolding refresh_peer_health
    treat_stale-refresh =
        rw (named, found)
          (elim (Bool-cases (has_expired m.secure_session_ttl now peer)) [
            | inr e ↦ rw e
            | inl e ↦ elim (Bool-cases (peer_state_eq peer.peer_state secure)) [
              | inl s ↦ rw (e, s) (rw treat_stale-sync)
              | inr s ↦ rw (e, s)
            ]
          ])

channel_ready-refreshed :
    (treat : Bool) (ttl now : Time) (peer : PeerTransportState)
    → channel_ready treat (refreshed ttl now peer) ≡ (
        peer.connected
        && peer.handshake_complete
        && not (
            treat
            && (peer_state_eq peer.peer_state stale
                || (peer_state_eq peer.peer_state secure && has_expired ttl now peer))))
unfolding channel_ready refreshed peer_state_eq
channel_ready-refreshed treat ttl now peer = ground arith

module _ (u : CaseMapping) (now : Time) (p : Option Str) (m : SessionManager)
    (peer : PeerTransportState) (named : is_empty (resolve_peer_id u p) ≡ false)
    (found : lookup (resolve_peer_id u p) m.peer_transport ≡ some peer) where
  -- A named peer that is in the table is ready exactly when it is connected with its handshake done and, where
  -- stale peers count as offline, neither stale nor secure and quiet for its time to live; a peer in another
  -- state may be quiet. The peer that was found is then the refreshed one.
  pub is_ready_exact :
      let r = is_peer_secure_channel_ready u now p m in
      (r.0 ≡ (
        peer.connected
        && peer.handshake_complete
        && not (
            m.treat_stale_as_offline
            && (peer_state_eq peer.peer_state stale
                || (peer_state_eq peer.peer_state secure
                    && has_expired m.secure_session_ttl now peer)))))
      × (lookup (resolve_peer_id u p) r.1.peer_transport
          ≡ some (refreshed m.secure_session_ttl now peer))
  unfolding is_peer_secure_channel_ready
  is_ready_exact =
      let q = some (resolve_peer_id u p) in
      let named' : is_empty (resolve_peer_id u q) ≡ false = rw (resolve_idem u now p m) named in
      let found' : lookup (resolve_peer_id u q) m.peer_transport ≡ some peer =
        rw (resolve_idem u now p m) found in
      let after = rw (resolve_idem u now p m) at (lookup-refresh u now q m peer named' found') in
      let kept = treat_stale-refresh u now q m peer named' found' in
      rw (named, found)
        (rw after (
          rw kept (
            channel_ready-refreshed m.treat_stale_as_offline m.secure_session_ttl now peer,
            after,
          )))
