-- ===== src/Session/Policy/Live.antt =====
-- What the life cycle does to the live path and to the choice of a route.
use i2pchat.Prelude.{
  if_rule, option_rule, ◌+◌, ◌<◌, ◌≡◌, refl, ◌∙◌, ap, ◌⊎◌, inl, inr, Bool, true, false, ◌&&◌, ◌||◌,
  not, Option, none, some, arith, is_empty, [],
}
use i2pchat.Text.{Str}
use i2pchat.Text.Case.{CaseMapping}
use i2pchat.PeerAddress.{normalize_peer_id}
use i2pchat.PeerAddress.Canonical.{normalize_peer_id_idem}
use i2pchat.Dict.{lookup}
use i2pchat.Session.State.{
  Time, Clock, secure, stale, new_peer, peer_state_eq, PeerTransportState, SessionManager, Result,
  ok,
}
use i2pchat.Session.Peers.{or_text, resolve_peer_id, store, sync_legacy_views, transition_transport}
use i2pchat.Session.Peers.Rules.{ensure_named_rule, lookup-put_self}
use i2pchat.Session.Health.{has_expired, healthy_peer, mark_live_healthy, recover_transport}
use i2pchat.Session.Health.Ready.{
  is_ready_exact, resolve_idem, or_text_id, peer_transport-sync, ttl-sync,
}
use i2pchat.Session.Lifecycle.{
  mark_peer_failed, set_peer_disconnected, reset_peer_lifecycle, reset_peer,
}
use i2pchat.Session.Policy.{is_live_path_alive}

module _ (u : CaseMapping) (now : Time) (p : Option Str) (m : SessionManager)
    (peer : PeerTransportState) (named : is_empty (resolve_peer_id u p) ≡ false)
    (found : lookup (resolve_peer_id u p) m.peer_transport ≡ some peer) where
  -- For a named peer of the table, the live path is alive exactly when its channel is ready, whatever
  -- the caller says of its own connection.
  pub alive_exact :
      (c h : Option Bool)
      → (is_live_path_alive u now c h p m).0 ≡ (
          peer.connected
          && peer.handshake_complete
          && not (
              m.treat_stale_as_offline
              && (peer_state_eq peer.peer_state stale
                  || (peer_state_eq peer.peer_state secure
                      && has_expired m.secure_session_ttl now peer))))
  unfolding is_live_path_alive resolve_peer_id
  alive_exact c h =
      let q = some (resolve_peer_id u p) in
      let named' : is_empty (resolve_peer_id u q) ≡ false = rw (resolve_idem u now p m) named in
      let found' : lookup (resolve_peer_id u q) m.peer_transport ≡ some peer =
        rw (resolve_idem u now p m) found in
      rw (named, found) (is_ready_exact u now q m peer named' found').0

-- What recovering the transport leaves alone
module _ (m : SessionManager) where
  peer_transport-recover : (recover_transport m).peer_transport ≡ m.peer_transport
  unfolding recover_transport transition_transport
  peer_transport-recover = ground arith

  ttl-recover : (recover_transport m).secure_session_ttl ≡ m.secure_session_ttl
  unfolding recover_transport transition_transport
  ttl-recover = ground arith

healthy_fresh :
    (ttl now ok_at touched : Time) (treat : Bool) (peer : PeerTransportState)
    → (now < ok_at + ttl) ⊎ (ttl ≡ 0)
    → let peer' = healthy_peer ok_at touched peer in
      (peer'.connected
        && peer'.handshake_complete
        && not (
            treat
            && (peer_state_eq peer'.peer_state stale
                || (peer_state_eq peer'.peer_state secure && has_expired ttl now peer'))))
      ≡ true
unfolding healthy_peer has_expired peer_state_eq
healthy_fresh ttl now ok_at touched treat peer (inl h) = ground arith
healthy_fresh ttl now ok_at touched treat peer (inr h) = ground arith

abbrev alive : CaseMapping → Time → Option Str → SessionManager → Bool
alive u now p m = (is_live_path_alive u now none none p m).0

module _ (u : CaseMapping) (t : Clock) (now : Time) (p : Option Str) (m : SessionManager)
    (named : is_empty (resolve_peer_id u p) ≡ false) where
  canonical : normalize_peer_id u (resolve_peer_id u p) ≡ resolve_peer_id u p
  unfolding resolve_peer_id
  canonical = normalize_peer_id_idem u (or_text p [])

  -- The state that `mark_live_healthy` leaves, from the peer that it found or made
  healthy_state : PeerTransportState → SessionManager → SessionManager
  healthy_state peer n = recover_transport (
      sync_legacy_views
        (store (normalize_peer_id u (resolve_peer_id u p)) (healthy_peer (t 0) (t 2) peer) n))

  alive-healthy :
      (peer : PeerTransportState) (n : SessionManager)
      → (now < t 0 + n.secure_session_ttl) ⊎ (n.secure_session_ttl ≡ 0)
      → alive u now p (healthy_state peer n) ≡ true
  unfolding healthy_state
  alive-healthy peer n h =
      let peer' = healthy_peer (t 0) (t 2) peer in
      let key = normalize_peer_id u (resolve_peer_id u p) in
      let m' = store key peer' n in
      let after = recover_transport (sync_legacy_views m') in
      let found : lookup (resolve_peer_id u p) after.peer_transport ≡ some peer' =
        rw (peer_transport-recover, peer_transport-sync)
          (rw canonical (lookup-put_self (resolve_peer_id u p) peer' n.peer_transport)) in
      let ttl : after.secure_session_ttl ≡ n.secure_session_ttl =
        ttl-recover (sync_legacy_views m') ∙ ttl-sync m' in
      alive_exact u now p after peer' named found none none
      ∙ rw ttl
          (healthy_fresh n.secure_session_ttl now (t 0) (t 2) after.treat_stale_as_offline peer h)

  -- After a success of the live path at a named peer, known or new, the call does not raise, and the
  -- peer's live path is alive until its time to live is over, or for good where there is none.
  pub mark_live_healthy-alive :
      (now < t 0 + m.secure_session_ttl) ⊎ (m.secure_session_ttl ≡ 0)
      → (m' : SessionManager) × (mark_live_healthy u t p m ≡ ok m') × (alive u now p m' ≡ true)
  unfolding mark_live_healthy resolve_peer_id healthy_state
  mark_live_healthy-alive h =
      let key = resolve_peer_id u p in
      let P = λ (r : Result SessionManager).
        (m' : SessionManager) × (r ≡ ok m') × (alive u now p m' ≡ true) in
      let named' : is_empty (normalize_peer_id u key) ≡ false = rw canonical named in
      rw named (
        ensure_named_rule P u (t 1) key m _ named'
          (λ peer found. (healthy_state peer m, refl, alive-healthy peer m h))
          (λ missing.
            let peer = new_peer (normalize_peer_id u key) (t 1) in
            let n = store (normalize_peer_id u key) peer m in
            (healthy_state peer n, refl, alive-healthy peer n h)))

-- A peer that is not connected, or not there, has no live path.
module _ (u : CaseMapping) (now : Time) (p : Str) (m : SessionManager) where
  resolve_some : resolve_peer_id u (some p) ≡ normalize_peer_id u p
  unfolding resolve_peer_id
  resolve_some = ap (normalize_peer_id u) (or_text_id p)

  dead_unknown :
      is_empty (normalize_peer_id u p) ≡ false
      → lookup (normalize_peer_id u p) m.peer_transport ≡ none
      → alive u now (some p) m ≡ false
  unfolding is_live_path_alive
  dead_unknown named missing = rw (or_text_id p, alive) (rw (named, missing, alive))

  dead_unconnected :
      (peer : PeerTransportState)
      → is_empty (normalize_peer_id u p) ≡ false
      → lookup (normalize_peer_id u p) m.peer_transport ≡ some peer
      → peer.connected ≡ false
      → alive u now (some p) m ≡ false
  dead_unconnected peer named found off =
      alive_exact u now (some p) m peer (rw resolve_some named) (rw resolve_some found) none none
      ∙ rw off

module _ (u : CaseMapping) (t : Clock) (now : Time) (p : Str) (m : SessionManager)
    (named : is_empty (normalize_peer_id u p) ≡ false) where
  abbrev written : PeerTransportState → SessionManager → SessionManager
  written peer n = sync_legacy_views (store (normalize_peer_id u p) peer n)

  dead_written :
      (peer : PeerTransportState) (n : SessionManager)
      → peer.connected ≡ false
      → alive u now (some p) (written peer n) ≡ false
  dead_written peer n off =
      dead_unconnected u now p (written peer n) peer named
        (rw peer_transport-sync (lookup-put_self (normalize_peer_id u p) peer n.peer_transport)) off

  -- After a failure or a disconnect of a named peer its live path is dead at any later time. The
  -- failure does not raise.
  pub offline_after :
      (reason : Str) (keep : Bool)
      → ((m' : SessionManager) × (mark_peer_failed u t p reason m ≡ ok m')
          × (alive u now (some p) m' ≡ false))
        × (alive u now (some p) (set_peer_disconnected u t p keep m) ≡ false)
  unfolding mark_peer_failed set_peer_disconnected reset_peer_lifecycle reset_peer
  offline_after reason keep =
      let P = λ (r : Result SessionManager).
        (m' : SessionManager) × (r ≡ ok m') × (alive u now (some p) m' ≡ false) in
      let key = normalize_peer_id u p in
      let off = λ (r : Bool × SessionManager). alive u now (some p) r.1 ≡ false in
      (
        ensure_named_rule P u (t 1) p m _ named (λ peer found. (_, refl, dead_written _ m refl))
            (λ missing. (_, refl, dead_written _ _ refl)),
        if_rule off (is_empty key) (false, m) _ (λ blank. cc)
            (λ _.
              option_rule off (lookup key m.peer_transport) (false, m) _
                (λ missing. dead_unknown u now p m named missing)
                (λ peer found. dead_written (reset_peer keep (t 0) peer) m refl)),
      )
