-- ===== src/Session/Lifecycle.antt =====
-- Connecting, handshaking, failing and resetting one peer.
use i2pchat.Prelude.{Bool, true, false, ◌&&◌, not, Option, none, some, [], if◌then◌else◌, is_empty}
use i2pchat.Text.{Str, str_eq}
use i2pchat.Text.Case.{CaseMapping}
use i2pchat.PeerAddress.{normalize_peer_id}
use i2pchat.Dict.{lookup, pop}
use i2pchat.Session.State.{
  Time, Clock, PeerState, disconnected, connecting, secure, failed, peer_state_eq,
  PeerTransportState, no_reconnect, SessionManager, Result, ok, ◌>>=◌,
}
use i2pchat.Session.Peers.{
  sync_legacy_views, touch_peer, store, resolve_peer_id, ensure_peer_transport, get_peer_transport,
}

-- What a reset clears in the peer object.
unfoldable pub reset_peer : Bool → Time → PeerTransportState → PeerTransportState
reset_peer keep_reconnect_metadata now peer = touch_peer now (record peer {
  connected = false;
  handshake_complete = false;
  peer_state = disconnected;
  secure_since_mono = 0;
  stale_since_mono = 0;
  outbound_streams = [];
  inflight_msg_ids = [];
  reconnect = if keep_reconnect_metadata then peer.reconnect else no_reconnect;
})

-- `self.peer_transport.pop(key, None)` and the active pointer
unfoldable pub forget_peer : Str → SessionManager → SessionManager
forget_peer key m = record m {
  peer_transport = pop key m.peer_transport;
  active_peer_id = if str_eq m.active_peer_id key then [] else m.active_peer_id;
}

module _ (u : CaseMapping) where
  unfoldable pub set_peer_connected :
      Clock → Str → PeerState → SessionManager → Result SessionManager
  set_peer_connected t peer_id state m = do
    (key, peer, m') ← ensure_peer_transport u (t 0) peer_id m
    ok (
        sync_legacy_views
          (store key (touch_peer (t 1) (record peer { connected = true; peer_state = state })) m'))

  unfoldable pub set_peer_handshake_complete : Clock → Str → SessionManager → Result SessionManager
  set_peer_handshake_complete t peer_id m = do
    let now = t 0
    (key, peer, m') ← ensure_peer_transport u (t 1) peer_id m
    let peer' = record peer {
      connected = true;
      handshake_complete = true;
      peer_state = secure;
      secure_since_mono = now;
      stale_since_mono = 0;
      last_live_ok_mono = now;
    }
    ok (sync_legacy_views (store key (touch_peer (t 2) peer') m'))

  unfoldable pub reset_peer_lifecycle :
      Clock → Str → Bool → Bool → SessionManager → Bool × SessionManager
  reset_peer_lifecycle t peer_id keep_reconnect_metadata drop_peer m =
      let key = normalize_peer_id u peer_id in
      if is_empty key then (false, m) else elim (lookup key m.peer_transport) [
        | none ↦ (false, m)
        | some peer ↦
            let m' = store key (reset_peer keep_reconnect_metadata (t 0) peer) m in
            (true, sync_legacy_views (if drop_peer then forget_peer key m' else m'))
      ]

  unfoldable pub set_peer_disconnected : Clock → Str → Bool → SessionManager → SessionManager
  set_peer_disconnected t peer_id keep_reconnect_metadata m =
      (reset_peer_lifecycle t peer_id keep_reconnect_metadata false m).1

  -- The two aliases
  unfoldable pub reset_peer_session :
      Clock → Str → Bool → Bool → SessionManager → Bool × SessionManager
  reset_peer_session = reset_peer_lifecycle

  unfoldable pub reset_peer_transport :
      Clock → Str → Bool → Bool → SessionManager → Bool × SessionManager
  reset_peer_transport = reset_peer_lifecycle

  unfoldable pub mark_peer_failed : Clock → Str → Str → SessionManager → Result SessionManager
  mark_peer_failed t peer_id reason m = do
    let now = t 0
    (key, peer, m') ← ensure_peer_transport u (t 1) peer_id m
    let peer' = record peer {
      connected = false;
      handshake_complete = false;
      peer_state = failed;
      stale_since_mono = 0;
      last_failure_reason = reason;
      last_live_failure_mono = now;
    }
    ok (sync_legacy_views (store key (touch_peer (t 2) peer') m'))

  -- The peer that `get_peer_transport` finds goes back to `disconnected` if it was only connecting.
  unfoldable pub set_outbound_connect_busy : Bool → Option Str → SessionManager → SessionManager
  set_outbound_connect_busy busy peer_id m =
      let m' = record m { outbound_connect_busy = busy } in
      if busy then m' else elim (get_peer_transport u peer_id m') [
        | none ↦ m'
        | some peer ↦
            if peer_state_eq peer.peer_state connecting && not peer.connected
            then sync_legacy_views
                (store (resolve_peer_id u peer_id) (record peer { peer_state = disconnected }) m')
            else m'
      ]
