-- ===== src/Session/Peers.antt =====
-- Transitions, the peer table and the views that are derived from it.
pub mod Rules
use i2pchat.Prelude.{Bool, Option, none, some, [], ◌∷◌, ◌++◌, if◌then◌else◌, is_empty}
use i2pchat.Text.{Str, codes}
use i2pchat.Text.Case.{CaseMapping}
use i2pchat.PeerAddress.{normalize_peer_id}
use i2pchat.Dict.{Dict, lookup, put, any_value}
use i2pchat.Session.State.{
  Time, TransportState, PeerState, disconnected, connecting, handshaking, secure, stale, failed,
  peer_state_eq, transport_state_eq, OutboundStreamInfo, PeerTransportState, new_peer,
  transport_changed, peer_changed, Event, SessionManager, Result, ok, value_error,
}

-- A registered callback is called with its arguments.
emit : Bool → Event → SessionManager → SessionManager
emit registered e m = if registered then record m { events = m.events ++ e ∷ [] } else m

unfoldable pub transition_transport : TransportState → Str → SessionManager → SessionManager
unfolding emit
transition_transport new_state reason m =
    let old_state = m.transport_state in
    if transport_state_eq old_state new_state
    then m
    else emit m.on_transport_state_change (transport_changed old_state new_state reason)
        (record m { transport_state = new_state })

unfoldable pub transition_peer : PeerState → Str → SessionManager → SessionManager
unfolding emit
transition_peer new_state reason m =
    let old_state = m.peer_state in
    if peer_state_eq old_state new_state
    then m
    else emit m.on_peer_state_change (peer_changed old_state new_state reason)
        (record m { peer_state = new_state })

abbrev pub in_state : PeerState → PeerTransportState → Bool
in_state s peer = peer_state_eq peer.peer_state s

-- `_derive_aggregate_peer_state`
unfoldable pub derive_aggregate_peer_state : Dict PeerTransportState → PeerState
derive_aggregate_peer_state [] = disconnected
derive_aggregate_peer_state (e ∷ rest) =
    let peers = e ∷ rest in
    if any_value (in_state secure) peers
    then secure
    else if any_value (in_state handshaking) peers
    then handshaking
    else if any_value (in_state connecting) peers
    then connecting
    else if any_value (in_state stale) peers
    then stale
    else if any_value (in_state failed) peers
    then failed
    else disconnected

-- `merged.update(peer.outbound_streams)` for the streams of one peer
unfoldable pub merge_peer : Str → Dict OutboundStreamInfo → Dict Str → Dict Str
merge_peer owner [] merged = merged
merge_peer owner ((destination, _) ∷ streams) merged =
    merge_peer owner streams (put destination owner merged)

unfoldable pub merge_streams : Dict PeerTransportState → Dict Str → Dict Str
merge_streams [] merged = merged
merge_streams ((owner, peer) ∷ peers) merged =
    merge_streams peers (merge_peer owner peer.outbound_streams merged)

-- `_rebuild_legacy_outbound_streams`
unfoldable pub rebuild_legacy_outbound_streams : SessionManager → SessionManager
rebuild_legacy_outbound_streams m = record m {
  outbound_streams = merge_streams m.peer_transport [];
}

-- `_sync_legacy_views`
unfoldable pub sync_legacy_views : SessionManager → SessionManager
sync_legacy_views m =
    let m' = rebuild_legacy_outbound_streams m in
    transition_peer (derive_aggregate_peer_state m'.peer_transport) (codes "sync-aggregate") m'

-- `_touch_peer`
abbrev pub touch_peer : Time → PeerTransportState → PeerTransportState
touch_peer now peer = record peer { last_activity_mono = now }

-- Writes to the fields of the peer object that the table holds at `key`.
abbrev pub store : Str → PeerTransportState → SessionManager → SessionManager
store key peer m = record m { peer_transport = put key peer m.peer_transport }

-- `peer_id or destination`
abbrev pub or_text : Option Str → Str → Str
or_text none other = other
or_text (some s) other = if is_empty s then other else s

module _ (u : CaseMapping) where
  -- `_resolve_peer_id`
  unfoldable pub resolve_peer_id : Option Str → Str
  resolve_peer_id peer_id = normalize_peer_id u (or_text peer_id [])

  unfoldable pub set_active_peer : Str → SessionManager → SessionManager
  set_active_peer peer_id m = record m { active_peer_id = normalize_peer_id u peer_id }

  -- The key and the peer, with the table that has it.
  unfoldable pub ensure_peer_transport :
      Time → Str → SessionManager → Result (Str × PeerTransportState × SessionManager)
  ensure_peer_transport now peer_id m =
      let normalized = normalize_peer_id u peer_id in
      if is_empty normalized then value_error else elim (lookup normalized m.peer_transport) [
        | some peer ↦ ok (normalized, peer, m)
        | none ↦
            let peer = new_peer normalized now in ok (normalized, peer, store normalized peer m)
      ]

  unfoldable pub get_peer_transport : Option Str → SessionManager → Option PeerTransportState
  get_peer_transport peer_id m =
      let normalized = resolve_peer_id peer_id in
      if is_empty normalized then none else lookup normalized m.peer_transport

unfoldable pub get_active_peer_transport : SessionManager → Option PeerTransportState
get_active_peer_transport m =
    if is_empty m.active_peer_id then none else lookup m.active_peer_id m.peer_transport
