-- ===== src/Session/Views/Methods.antt =====
-- The derived views under each method that changes a peer.
use i2pchat.Prelude.{
  option_rule, if_rule, ℕ, ◌≡◌, refl, Bool, false, ◌&&◌, not, Option, Bool-cases, inl, inr,
  is_empty, get_or, [], ◌||◌, is_some, if◌then◌else◌,
}
use i2pchat.Text.{Str}
use i2pchat.Text.Case.{CaseMapping}
use i2pchat.PeerAddress.{normalize_peer_id}
use i2pchat.Dict.{lookup}
use i2pchat.Session.State.{
  Time, Clock, PeerState, connecting, peer_state_eq, PeerTransportState, SessionManager, Result, ok,
  ◌>>=◌, new_peer,
}
use i2pchat.Session.Peers.{get_peer_transport, store, or_text, resolve_peer_id, touch_peer}
use i2pchat.Session.Peers.Rules.{peer_rule, ensure_rule, lookup-put_self}
use i2pchat.Session.Lifecycle
use i2pchat.Session.Streams
use i2pchat.Session.Health
use i2pchat.Session.Backoff
use i2pchat.Session.Backoff.Delays.{backoff_rule}
use i2pchat.Session.Calls.{settle}
use i2pchat.Session.Views.{IsSynced, sync_legacy_views-IsSynced}
use i2pchat.Session.Views.Health.{
  Settled, same_views, store-IsSynced, store_new-IsSynced, recover-IsSynced, touched_keys,
  synced_after, unless_ready-IsSynced,
}

module _ (u : CaseMapping) (t : Clock) (m : SessionManager) (h : IsSynced m) where
  pub connected-IsSynced :
      (p : Str) (s : PeerState) → Settled m (Lifecycle.set_peer_connected u t p s m)
  unfolding Lifecycle.set_peer_connected
  connected-IsSynced p s = synced_after u (t 0) p m _ (λ r. sync_legacy_views-IsSynced _) h

  pub handshake-IsSynced : (p : Str) → Settled m (Lifecycle.set_peer_handshake_complete u t p m)
  unfolding Lifecycle.set_peer_handshake_complete
  handshake-IsSynced p = synced_after u (t 1) p m _ (λ r. sync_legacy_views-IsSynced _) h

  pub failed-IsSynced : (p reason : Str) → Settled m (Lifecycle.mark_peer_failed u t p reason m)
  unfolding Lifecycle.mark_peer_failed
  failed-IsSynced p reason = synced_after u (t 1) p m _ (λ r. sync_legacy_views-IsSynced _) h

  pub reset-IsSynced :
      (p : Str) (k d : Bool) → IsSynced (Lifecycle.reset_peer_lifecycle u t p k d m).1
  unfolding Lifecycle.reset_peer_lifecycle
  reset-IsSynced p k d =
      peer_rule (λ (r : Bool × SessionManager). IsSynced r.1) (normalize_peer_id u p)
        m.peer_transport (false, m) _ h (λ peer found. sync_legacy_views-IsSynced _)

  pub busy-IsSynced :
      (b : Bool) (p : Option Str) → IsSynced (Lifecycle.set_outbound_connect_busy u b p m)
  unfolding Lifecycle.set_outbound_connect_busy
  busy-IsSynced b p =
      let m' = record m { outbound_connect_busy = b } in
      let h' = same_views m m' refl refl refl h in
      if_rule IsSynced b m' _ (λ _. h')
        λ _.
          option_rule IsSynced (get_peer_transport u p m') m' _ (λ _. h')
            λ peer found.
              elim (Bool-cases (peer_state_eq peer.peer_state connecting && not peer.connected)) [
                | inl e ↦ rw e (sync_legacy_views-IsSynced _)
                | inr e ↦ rw e h'
              ]

  -- With a name for the peer, or a destination that names it
  pub register-IsSynced :
      (d : Str) (s : PeerState) (p : Option Str)
      → is_empty (normalize_peer_id u (or_text p d)) ≡ false
      → Settled m (Streams.register_stream u t d s p m)
  unfolding Streams.register_stream
  register-IsSynced d s p named = rw named (
      synced_after u (t 2) (normalize_peer_id u (or_text p d)) m _
        (λ r. sync_legacy_views-IsSynced _) h)

  pub update-IsSynced :
      (d : Str) (s : PeerState) (p : Option Str)
      → is_empty (normalize_peer_id u (or_text p d)) ≡ false
      → Settled m (Streams.update_stream_state u t d s p m)
  unfolding Streams.update_stream_state
  update-IsSynced d s p named = rw named (
      synced_after u (t 0) (normalize_peer_id u (or_text p d)) m _
        (λ r. sync_legacy_views-IsSynced _) h)

  pub unregister-IsSynced :
      (d : Str) (p : Option Str) → IsSynced (Streams.unregister_stream u t d p m)
  unfolding Streams.unregister_stream
  unregister-IsSynced d p = sync_legacy_views-IsSynced _

  pub touch-IsSynced : (d : Str) (p : Option Str) → IsSynced (Streams.touch_stream u t d p m)
  unfolding Streams.touch_stream
  touch-IsSynced d p =
      let named = normalize_peer_id u (or_text p d) in
      let key =
        if is_some (lookup named m.peer_transport) || not (is_empty named)
        then named
        else get_or named (Streams.find_owner d m.peer_transport) in
      option_rule IsSynced (lookup key m.peer_transport) m _ (λ _. h)
        λ peer found.
          let streams = Streams.touched_streams (t 0) d peer.outbound_streams in
          let peer' = touch_peer (t 1) (record peer { outbound_streams = streams }) in
          store-IsSynced key peer' peer m found refl (touched_keys (t 0) d peer.outbound_streams) h

  pub inflight-IsSynced :
      (i : ℕ) (p : Option Str) → Settled m (Streams.register_inflight_message u t i p m)
  unfolding Streams.register_inflight_message settle
  inflight-IsSynced i p =
      let key = resolve_peer_id u p in
      let added = λ (peer : PeerTransportState).
        touch_peer (t 1)
          (record peer { inflight_msg_ids = Streams.add_id i peer.inflight_msg_ids }) in
      if_rule (Settled m) (is_empty key) (ok m) _ (λ _. h)
        λ _.
          ensure_rule (Settled m) u (t 0) key m _ h
            (λ peer found. store-IsSynced _ (added peer) peer m found refl refl h)
            (λ missing.
              let k = normalize_peer_id u key in
              let peer = new_peer k (t 0) in
              store-IsSynced k (added peer) peer (store k peer m)
                (lookup-put_self k peer m.peer_transport) refl refl
                (store_new-IsSynced k (t 0) m missing h))

  pub acknowledge-IsSynced :
      (i : ℕ) (p : Option Str) → IsSynced (Streams.acknowledge_inflight_message u t i p m).1
  unfolding Streams.acknowledge_inflight_message
  acknowledge-IsSynced i p =
      let key = resolve_peer_id u p in
      peer_rule (λ (r : Bool × SessionManager). IsSynced r.1) key m.peer_transport (false, m) _ h
        λ peer found.
          let left = record peer {
            inflight_msg_ids = Streams.discard_id i peer.inflight_msg_ids;
          } in
          elim (Bool-cases (Streams.contains_id i peer.inflight_msg_ids)) [
            | inl e ↦ rw e (store-IsSynced key (touch_peer (t 0) left) peer m found refl refl h)
            | inr e ↦ rw e (store-IsSynced key left peer m found refl refl h)
          ]

  pub clear-IsSynced : (p : Option Str) → IsSynced (Streams.clear_inflight_messages u t p m)
  unfolding Streams.clear_inflight_messages
  clear-IsSynced p =
      let key = resolve_peer_id u p in
      peer_rule IsSynced key m.peer_transport m _ h λ peer found.
        store-IsSynced key (touch_peer (t 0) (record peer { inflight_msg_ids = [] })) peer m found
          refl refl h

  pub healthy-IsSynced : (p : Option Str) → Settled m (Health.mark_live_healthy u t p m)
  unfolding Health.mark_live_healthy settle
  healthy-IsSynced p =
      let key = normalize_peer_id u (or_text p []) in
      if_rule (Settled m) (is_empty key) (ok _) _
        (λ _. recover-IsSynced _ (same_views m _ refl refl refl h))
        (λ _.
          synced_after u (t 1) key m _ (λ r. recover-IsSynced _ (sync_legacy_views-IsSynced _)) h)

  pub failure-IsSynced :
      (reason : Str) (s : Bool) (p : Option Str)
      → Settled m (Health.mark_live_failure u t reason s p m)
  unfolding Health.mark_live_failure settle
  failure-IsSynced reason s p =
      let key = normalize_peer_id u (or_text p []) in
      if_rule (Settled m) (is_empty key) (ok _) _
        (λ _. unless_ready-IsSynced u _ _ _ _ (same_views m _ refl refl refl h))
        (λ _.
          synced_after u (t 1) key m _
            (λ r. unless_ready-IsSynced u _ _ _ _ (sync_legacy_views-IsSynced _)) h)

  pub backoff-IsSynced :
      (j : Time → Time) (reason : Str) (b x : Time) (p : Option Str)
      → Settled m (Backoff.schedule_reconnect_backoff u t j reason b x p m >>= λ r. ok r.1)
  unfolding Backoff.schedule_reconnect_backoff settle
  backoff-IsSynced j reason b x p =
      let key = normalize_peer_id u (or_text p []) in
      let P = λ (r : Result (Time × SessionManager)). Settled m (r >>= λ x. ok x.1) in
      if_rule P (is_empty key) _ _
        (λ _.
          backoff_rule P b x _ _ h
            (λ delay. unless_ready-IsSynced u _ _ _ _ (same_views m _ refl refl refl h)))
        (λ _.
          ensure_rule P u (t 0) key m _ h
            (λ peer found.
              backoff_rule P b x _ _ h
                (λ delay. unless_ready-IsSynced u _ _ _ _ (sync_legacy_views-IsSynced _)))
            (λ missing.
              backoff_rule P b x _ _ h
                (λ delay. unless_ready-IsSynced u _ _ _ _ (sync_legacy_views-IsSynced _))))
