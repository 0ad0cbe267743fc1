-- ===== src/Session/Views/Runs.antt =====
-- The derived views under every call, and along every run from the start.
use i2pchat.Prelude.{
  ◌≡◌, refl, Bool, false, Option, List, [], ◌∷◌, is_empty, Bool-cases, inl, inr, is_some, ◌||◌,
}
use i2pchat.Text.{Str}
use i2pchat.Text.Case.{CaseMapping}
use i2pchat.PeerAddress.{normalize_peer_id}
use i2pchat.Dict.{has_key}
use i2pchat.Session.State.{Time, Clock, SessionManager, init}
use i2pchat.Session.Peers
use i2pchat.Session.Peers.{or_text, derive_aggregate_peer_state, merge_streams}
use i2pchat.Session.Lifecycle
use i2pchat.Session.Policy
use i2pchat.Session.Shutdown
use i2pchat.Session.Calls.{
  Call, step, run, register_stream, update_stream_state, transition_transport, transition_peer,
  set_active_peer, ensure_peer_transport, set_peer_connected, set_peer_handshake_complete,
  set_peer_disconnected, reset_peer_lifecycle, mark_peer_failed, set_outbound_connect_busy,
  unregister_stream, touch_stream, register_inflight_message, acknowledge_inflight_message,
  clear_inflight_messages, refresh_peer_health, is_peer_secure_channel_ready, mark_live_healthy,
  mark_live_failure, schedule_reconnect_backoff, select_outbound_policy,
  invalidate_handshake_watchdog, cancel_tasks_and_close_session,
}
use i2pchat.Session.Views.{
  IsSynced, peer_state-transition_peer, peer_transport-transition_peer,
  outbound_streams-transition_peer,
}
use i2pchat.Session.Views.Health.{
  same_views, transport-IsSynced, ensure-IsSynced, refresh-IsSynced, is_ready-IsSynced,
}
use i2pchat.Session.Views.Methods

shutdown-IsSynced : (m : SessionManager) → IsSynced (Shutdown.cancel_tasks_and_close_session m)
unfolding Shutdown.cancel_tasks_and_close_session Shutdown.invalidate_handshake_watchdog
    derive_aggregate_peer_state merge_streams
shutdown-IsSynced m = record {
  state = rw (peer_state-transition_peer, peer_transport-transition_peer);
  streams = rw (outbound_streams-transition_peer, peer_transport-transition_peer);
}

watchdog-IsSynced :
    (m : SessionManager) → IsSynced m → IsSynced (Shutdown.invalidate_handshake_watchdog m).1
unfolding Shutdown.invalidate_handshake_watchdog
watchdog-IsSynced m h = same_views m _ refl refl refl h

module _ (u : CaseMapping) where
  -- A stream call names its peer: only a stream with a blank destination, and no peer, has none to stand for.
  -- The bare `transition_peer` is left out.
  abbrev pub IsScoped : Call → Type 0
  IsScoped (register_stream d s p) = is_empty (normalize_peer_id u (or_text p d)) ≡ false
  IsScoped (update_stream_state d s p) = is_empty (normalize_peer_id u (or_text p d)) ≡ false
  IsScoped (transition_peer s r) = ⊥
  IsScoped _ = Unit

  policy-IsSynced :
      (now : Time) (r : Str) (c h : Option Bool) (p : Option Str) (m : SessionManager)
      → IsSynced m
      → IsSynced (Policy.select_outbound_policy u now r c h p m).1
  unfolding Policy.select_outbound_policy Policy.is_live_path_alive
  policy-IsSynced now r c h p m s =
      let key = normalize_peer_id u (or_text p []) in
      elim (Bool-cases (is_empty key)) [
        | inl e ↦
            rw e (elim (Bool-cases (is_some c || is_some h)) [ inl f ↦ rw f s | inr f ↦ rw f s ])
        | inr e ↦ rw e (elim (Bool-cases (has_key key m.peer_transport)) [
          | inl f ↦ rw f (is_ready-IsSynced u now _ m s)
          | inr f ↦ rw f s
        ])
      ]

  active-IsSynced :
      (p : Str) (m : SessionManager) → IsSynced m → IsSynced (Peers.set_active_peer u p m)
  unfolding Peers.set_active_peer
  active-IsSynced p m h = same_views m _ refl refl refl h

  disconnected-IsSynced :
      (t : Clock) (p : Str) (k : Bool) (m : SessionManager)
      → IsSynced m
      → IsSynced (Lifecycle.set_peer_disconnected u t p k m)
  unfolding Lifecycle.set_peer_disconnected
  disconnected-IsSynced t p k m h = Methods.reset-IsSynced u t m h p k false

  step-IsSynced :
      (t : Clock) (c : Call) (m : SessionManager)
      → IsScoped c
      → IsSynced m
      → IsSynced (step u t c m)
  unfolding step
  step-IsSynced t (transition_transport s r) m n h = transport-IsSynced s r m h
  step-IsSynced t (transition_peer s r) m n h = absurd n
  step-IsSynced t (set_active_peer p) m n h = active-IsSynced p m h
  step-IsSynced t (ensure_peer_transport p) m n h = ensure-IsSynced u (t 0) p m h
  step-IsSynced t (set_peer_connected p s) m n h = Methods.connected-IsSynced u t m h p s
  step-IsSynced t (set_peer_handshake_complete p) m n h = Methods.handshake-IsSynced u t m h p
  step-IsSynced t (set_peer_disconnected p k) m n h = disconnected-IsSynced t p k m h
  step-IsSynced t (reset_peer_lifecycle p k d) m n h = Methods.reset-IsSynced u t m h p k d
  step-IsSynced t (mark_peer_failed p r) m n h = Methods.failed-IsSynced u t m h p r
  step-IsSynced t (set_outbound_connect_busy b p) m n h = Methods.busy-IsSynced u t m h b p
  step-IsSynced t (register_stream d s p) m n h = Methods.register-IsSynced u t m h d s p n
  step-IsSynced t (unregister_stream d p) m n h = Methods.unregister-IsSynced u t m h d p
  step-IsSynced t (update_stream_state d s p) m n h = Methods.update-IsSynced u t m h d s p n
  step-IsSynced t (touch_stream d p) m n h = Methods.touch-IsSynced u t m h d p
  step-IsSynced t (register_inflight_message i p) m n h = Methods.inflight-IsSynced u t m h i p
  step-IsSynced t (acknowledge_inflight_message i p) m n h =
      Methods.acknowledge-IsSynced u t m h i p
  step-IsSynced t (clear_inflight_messages p) m n h = Methods.clear-IsSynced u t m h p
  step-IsSynced t (refresh_peer_health p) m n h = refresh-IsSynced u (t 0) p m h
  step-IsSynced t (is_peer_secure_channel_ready p) m n h = is_ready-IsSynced u (t 0) p m h
  step-IsSynced t (mark_live_healthy p) m n h = Methods.healthy-IsSynced u t m h p
  step-IsSynced t (mark_live_failure r s p) m n h = Methods.failure-IsSynced u t m h r s p
  step-IsSynced t (schedule_reconnect_backoff j r b x p) m n h =
      Methods.backoff-IsSynced u t m h j r b x p
  step-IsSynced t (select_outbound_policy r c l p) m n h = policy-IsSynced (t 0) r c l p m h
  step-IsSynced t invalidate_handshake_watchdog m n h = watchdog-IsSynced m h
  step-IsSynced t cancel_tasks_and_close_session m n h = shutdown-IsSynced m

  -- Each call of a run is so.
  abbrev pub AllScoped : List (Clock × Call) → Type 0
  AllScoped [] = Unit
  AllScoped ((t, c) ∷ calls) = IsScoped c × AllScoped calls

  -- From a state in which the aggregate peer state is the one derived from the peer table and the
  -- stream mirror is the merge of the peers' streams, any run of the manager's methods in which each
  -- stream call names its peer leads to such a state; `transition_peer`, which sets the aggregate alone, is not
  -- among the calls of the run, though the methods call it.
  pub run-IsSynced :
      (calls : List (Clock × Call)) (m : SessionManager)
      → AllScoped calls
      → IsSynced m
      → IsSynced (run u calls m)
  unfolding run
  run-IsSynced [] m n h = h
  run-IsSynced ((t, c) ∷ calls) m n h =
      run-IsSynced calls (step u t c m) n.1 (step-IsSynced t c m n.0 h)

-- A new manager has nothing to show.
pub init-IsSynced : (ttl : Time) (s a b : Bool) → IsSynced (init ttl s a b)
unfolding init derive_aggregate_peer_state merge_streams
init-IsSynced ttl s a b = record { state = refl; streams = refl }
