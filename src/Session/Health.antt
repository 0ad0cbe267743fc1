-- ===== src/Session/Health.antt =====
-- The health of a peer: staleness, readiness, success and failure of the live path, back-off.
pub mod Ready
use i2pchat.Prelude.{
  ℕ, suc, ◌+◌, max, Bool, true, false, ◌&&◌, not, leb, ltb, Option, none, some, List, [], ◌∷◌,
  if◌then◌else◌, is_empty,
}
use i2pchat.Text.{Str, codes}
use i2pchat.Text.Case.{CaseMapping}
use i2pchat.PeerAddress.{normalize_peer_id}
use i2pchat.Dict.{lookup, keys}
use i2pchat.Session.State.{
  Time, Clock, TransportState, ready, degraded, reconnecting, sam_connected, warming_tunnels,
  secure, stale, peer_state_eq, PeerTransportState, no_reconnect, SessionManager, Result, ok, ◌>>=◌,
}
use i2pchat.Session.Peers.{
  transition_transport, sync_legacy_views, touch_peer, store, or_text, resolve_peer_id,
  ensure_peer_transport,
}

-- The guards of `refresh_peer_health`: a secure session that has been quiet for its time to live
unfoldable pub has_expired : Time → Time → PeerTransportState → Bool
has_expired ttl now peer =
    ltb 0 ttl
    && peer.connected
    && peer.handshake_complete
    && ltb 0 peer.secure_since_mono
    && leb (max (max peer.last_activity_mono peer.last_live_ok_mono) peer.secure_since_mono + ttl)
        now

-- `if peer.stale_since_mono <= 0.0: peer.stale_since_mono = now`
abbrev pub stale_from : Time → Time → Time
stale_from now since = if leb since 0 then now else since

-- The last lines of `is_peer_secure_channel_ready`, on the peer after the refresh
unfoldable pub channel_ready : Bool → PeerTransportState → Bool
channel_ready treat_stale_as_offline peer =
    if not (peer.connected && peer.handshake_complete)
    then false
    else not (peer_state_eq peer.peer_state stale && treat_stale_as_offline)

-- The peer part of `mark_live_healthy`
unfoldable pub healthy_peer : Time → Time → PeerTransportState → PeerTransportState
healthy_peer now touched peer = touch_peer touched (record peer {
  connected = true;
  handshake_complete = true;
  peer_state = secure;
  last_live_ok_mono = now;
  stale_since_mono = 0;
  secure_since_mono = if leb peer.secure_since_mono 0 then now else peer.secure_since_mono;
  reconnect = no_reconnect;
})

-- `if self.transport_state in {…}`
unfoldable pub recovers : TransportState → Bool
recovers reconnecting = true
recovers degraded = true
recovers sam_connected = true
recovers warming_tunnels = true
recovers _ = false

unfoldable pub recover_transport : SessionManager → SessionManager
recover_transport m =
    if recovers m.transport_state then transition_transport ready (codes "live-ok") m else m

-- The peer part of `mark_live_failure`
unfoldable pub failing_peer : Bool → Str → Time → Time → PeerTransportState → PeerTransportState
failing_peer mark_peer_stale reason now touched peer = touch_peer touched (record peer {
  last_live_failure_mono = now;
  last_failure_reason = reason;
  peer_state = if mark_peer_stale then stale else peer.peer_state;
  stale_since_mono =
      if mark_peer_stale then stale_from now peer.stale_since_mono else peer.stale_since_mono;
})

module _ (u : CaseMapping) where
  unfoldable pub refresh_peer_health : Time → Option Str → SessionManager → SessionManager
  refresh_peer_health now peer_id m =
      let key = resolve_peer_id u peer_id in
      if is_empty key then m else elim (lookup key m.peer_transport) [
        | none ↦ m
        | some peer ↦
            if has_expired m.secure_session_ttl now peer
            then (let peer' = record peer {
              stale_since_mono = stale_from now peer.stale_since_mono;
            } in
                if peer_state_eq peer.peer_state secure
                then sync_legacy_views (store key (record peer' { peer_state = stale }) m)
                else store key peer' m)
            else m
      ]

  unfoldable pub is_peer_secure_channel_ready :
      Time → Option Str → SessionManager → Bool × SessionManager
  is_peer_secure_channel_ready now peer_id m =
      let key = resolve_peer_id u peer_id in
      if is_empty key then (false, m) else elim (lookup key m.peer_transport) [
        | none ↦ (false, m)
        | some _ ↦
            let m' = refresh_peer_health now (some key) m in
            elim (lookup key m'.peer_transport) [
              | none ↦ (false, m')
              | some peer ↦ (channel_ready m'.treat_stale_as_offline peer, m')
            ]
      ]

  -- The loop of `_has_ready_peer` over the keys that are left
  unfoldable pub ready_among : Clock → List Str → SessionManager → Bool × SessionManager
  ready_among t [] m = (false, m)
  ready_among t (peer_id ∷ rest) m =
      let (is_ready, m') = is_peer_secure_channel_ready (t 0) (some peer_id) m in
      let others = ready_among (λ i. t (suc i)) rest m' in if is_ready then (true, m') else others

  unfoldable pub has_ready_peer : Clock → SessionManager → Bool × SessionManager
  has_ready_peer t m = ready_among t (keys m.peer_transport) m

  -- `if not self._has_ready_peer(): self.transition_transport(…)`
  unfoldable pub transition_unless_ready :
      Clock → TransportState → Str → SessionManager → SessionManager
  transition_unless_ready t state reason m =
      let (is_ready, m') = has_ready_peer t m in
      if is_ready then m' else transition_transport state reason m'

  unfoldable pub mark_live_healthy : Clock → Option Str → SessionManager → Result SessionManager
  mark_live_healthy t peer_id m =
      let now = t 0 in
      let key = normalize_peer_id u (or_text peer_id []) in
      if is_empty key
      then ok (recover_transport (record m { last_live_ok_mono = now; reconnect = no_reconnect }))
      else do
        (k, peer, m') ← ensure_peer_transport u (t 1) key m
        ok (recover_transport (sync_legacy_views (store k (healthy_peer now (t 2) peer) m')))

  unfoldable pub mark_live_failure :
      Clock → Str → Bool → Option Str → SessionManager → Result SessionManager
  mark_live_failure t reason mark_peer_stale peer_id m =
      let now = t 0 in
      let later = λ (i : ℕ). t (i + 3) in
      let key = normalize_peer_id u (or_text peer_id []) in
      if is_empty key
      then ok (
          transition_unless_ready later degraded reason (record m { last_live_failure_mono = now }))
      else do
        (k, peer, m') ← ensure_peer_transport u (t 1) key m
        let peer' = failing_peer mark_peer_stale reason now (t 2) peer
        ok (transition_unless_ready later degraded reason (sync_legacy_views (store k peer' m')))
