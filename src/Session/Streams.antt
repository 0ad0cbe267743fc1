-- ===== src/Session/Streams.antt =====
-- Outbound streams and the messages in flight.
use i2pchat.Prelude.{
  ℕ, Bool, true, false, ◌==◌, leb, Option, none, some, List, [], ◌∷◌, ◌++◌, if◌then◌else◌, is_empty,
  is_some, any, keep, not, get_or, take, ◌||◌,
}
use i2pchat.Text.{Str, codes}
use i2pchat.Text.Case.{CaseMapping}
use i2pchat.PeerAddress.{normalize_peer_id}
use i2pchat.Dict.{Dict, lookup, has_key, put, pop}
use i2pchat.Session.State.{
  Time, Clock, PeerState, disconnected, secure, peer_state_eq, OutboundStreamInfo,
  PeerTransportState, SessionManager, Result, ok, ◌>>=◌,
}
use i2pchat.Session.Peers.{
  transition_peer, sync_legacy_views, touch_peer, store, or_text, resolve_peer_id,
  ensure_peer_transport,
}

-- `destination[:24]` for the reason of a transition
stream_reason : Str → Str → Str
stream_reason what destination = what ++ take 24 destination

-- `OutboundStreamInfo(destination=…, state=…)`
abbrev pub new_stream : Str → PeerState → Time → Time → OutboundStreamInfo
new_stream destination state opened active = record {
  destination = destination;
  opened_at_mono = opened;
  last_activity_mono = active;
  state = state;
  inflight_msg_ids = [];
}

-- The first peer that has a stream to the destination
unfoldable pub find_owner : Str → Dict PeerTransportState → Option Str
find_owner destination [] = none
find_owner destination ((candidate_id, candidate) ∷ rest) =
    if has_key destination candidate.outbound_streams
    then some candidate_id
    else find_owner destination rest

-- A peer that has lost its last stream
unfoldable pub without_stream : Str → PeerTransportState → PeerTransportState
without_stream destination peer =
    let streams = pop destination peer.outbound_streams in
    if is_empty streams
    then record peer {
      outbound_streams = streams;
      connected = false;
      handshake_complete = false;
      peer_state = disconnected;
      secure_since_mono = 0;
      stale_since_mono = 0;
      inflight_msg_ids = [];
    }
    else record peer { outbound_streams = streams }

-- What `update_stream_state` writes to the peer: `opened` and `made` are the readings for a stream
-- that is not there yet, and `active` is the stream's new activity.
unfoldable pub with_stream_state :
    Str → PeerState → Time → Time → Time → PeerTransportState → PeerTransportState
with_stream_state destination state opened made active peer =
    let found = lookup destination peer.outbound_streams in
    let info = get_or (new_stream destination state opened made) found in
    let info' = record info { state = state; last_activity_mono = active } in
    let peer' = record peer {
      connected = true;
      outbound_streams = put destination info' peer.outbound_streams;
      peer_state = state;
    } in
    if peer_state_eq state secure
    then record peer' {
      handshake_complete = true;
      stale_since_mono = 0;
      secure_since_mono = if leb peer.secure_since_mono 0 then active else peer.secure_since_mono;
    }
    else peer'

-- `info.last_activity_mono = now` for the stream to the destination, if there is one
unfoldable pub touched_streams : Time → Str → Dict OutboundStreamInfo → Dict OutboundStreamInfo
touched_streams now destination streams = elim (lookup destination streams) [
  | none ↦ streams
  | some info ↦ put destination (record info { last_activity_mono = now }) streams
]

-- `set.add` and `set.discard` of a message id
abbrev pub contains_id : ℕ → List ℕ → Bool
contains_id msg_id ids = any (λ i. i == msg_id) ids

unfoldable pub add_id : ℕ → List ℕ → List ℕ
add_id msg_id ids = if contains_id msg_id ids then ids else ids ++ msg_id ∷ []

unfoldable pub discard_id : ℕ → List ℕ → List ℕ
discard_id msg_id ids = keep (λ i. not (i == msg_id)) ids

module _ (u : CaseMapping) where
  unfoldable pub register_stream :
      Clock → Str → PeerState → Option Str → SessionManager → Result SessionManager
  unfolding stream_reason
  register_stream t destination state peer_id m =
      let info = new_stream destination state (t 0) (t 1) in
      let key = normalize_peer_id u (or_text peer_id destination) in
      if is_empty key
      then ok (transition_peer state (stream_reason (codes "stream-open:") destination) m)
      else do
        (k, peer, m') ← ensure_peer_transport u (t 2) key m
        let peer' = record peer {
          connected = true;
          outbound_streams = put destination info peer.outbound_streams;
          peer_state = state;
        }
        ok (sync_legacy_views (store k (touch_peer (t 3) peer') m'))

  unfoldable pub unregister_stream : Clock → Str → Option Str → SessionManager → SessionManager
  unregister_stream t destination peer_id m =
      let named = normalize_peer_id u (or_text peer_id destination) in
      let key =
        if is_empty named then get_or named (find_owner destination m.peer_transport) else named in
      sync_legacy_views (elim (lookup key m.peer_transport) [
        | none ↦ m
        | some peer ↦ store key (touch_peer (t 0) (without_stream destination peer)) m
      ])

  unfoldable pub update_stream_state :
      Clock → Str → PeerState → Option Str → SessionManager → Result SessionManager
  unfolding stream_reason
  update_stream_state t destination state peer_id m =
      let key = normalize_peer_id u (or_text peer_id destination) in
      if is_empty key
      then ok (transition_peer state (stream_reason (codes "stream-state:") destination) m)
      else do
        (k, peer, m') ← ensure_peer_transport u (t 0) key m
        let peer' = with_stream_state destination state (t 1) (t 2) (t 3) peer
        ok (sync_legacy_views (store k (touch_peer (t 4) peer') m'))

  -- The stream object changes in place, and the mirror refers to the same object.
  unfoldable pub touch_stream : Clock → Str → Option Str → SessionManager → SessionManager
  touch_stream t destination peer_id m =
      let named = normalize_peer_id u (or_text peer_id destination) in
      let key =
        if is_some (lookup named m.peer_transport) || not (is_empty named)
        then named
        else get_or named (find_owner destination m.peer_transport) in
      elim (lookup key m.peer_transport) [
        | none ↦ m
        | some peer ↦
            let streams = touched_streams (t 0) destination peer.outbound_streams in
            store key (touch_peer (t 1) (record peer { outbound_streams = streams })) m
      ]

  unfoldable pub register_inflight_message :
      Clock → ℕ → Option Str → SessionManager → Result SessionManager
  register_inflight_message t msg_id peer_id m =
      let key = resolve_peer_id u peer_id in
      if is_empty key then ok m else do
        (k, peer, m') ← ensure_peer_transport u (t 0) key m
        let peer' = record peer { inflight_msg_ids = add_id msg_id peer.inflight_msg_ids }
        ok (store k (touch_peer (t 1) peer') m')

  unfoldable pub acknowledge_inflight_message :
      Clock → ℕ → Option Str → SessionManager → Bool × SessionManager
  acknowledge_inflight_message t msg_id peer_id m =
      let key = resolve_peer_id u peer_id in
      if is_empty key then (false, m) else elim (lookup key m.peer_transport) [
        | none ↦ (false, m)
        | some peer ↦
            let removed = contains_id msg_id peer.inflight_msg_ids in
            let peer' = record peer {
              inflight_msg_ids = discard_id msg_id peer.inflight_msg_ids;
            } in
            (removed, store key (if removed then touch_peer (t 0) peer' else peer') m)
      ]

  unfoldable pub clear_inflight_messages : Clock → Option Str → SessionManager → SessionManager
  clear_inflight_messages t peer_id m =
      let key = resolve_peer_id u peer_id in
      if is_empty key then m else elim (lookup key m.peer_transport) [
        | none ↦ m
        | some peer ↦ store key (touch_peer (t 0) (record peer { inflight_msg_ids = [] })) m
      ]
