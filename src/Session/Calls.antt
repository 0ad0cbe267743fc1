-- ===== src/Session/Calls.antt =====
-- The state-changing methods of `SessionManager` as one type of calls. A call that raises leaves the
-- state as it was: the one that raises after it has looked up its peer raises for a peer that was there.
use i2pchat.Prelude.{ℕ, Bool, Option, List, [], ◌∷◌}
use i2pchat.Text.{Str}
use i2pchat.Text.Case.{CaseMapping}
use i2pchat.Session.State.{
  Time, Clock, PeerState, TransportState, SessionManager, Result, ok, value_error, overflow_error,
  ◌>>=◌,
}
use i2pchat.Session.Peers
use i2pchat.Session.Lifecycle
use i2pchat.Session.Streams
use i2pchat.Session.Health
use i2pchat.Session.Backoff
use i2pchat.Session.Policy
use i2pchat.Session.Shutdown

pub data Call : Type 0 where
  transition_transport : TransportState → Str → Call
  transition_peer : PeerState → Str → Call
  set_active_peer : Str → Call
  ensure_peer_transport : Str → Call
  set_peer_connected : Str → PeerState → Call
  set_peer_handshake_complete : Str → Call
  set_peer_disconnected : Str → Bool → Call
  reset_peer_lifecycle : Str → Bool → Bool → Call
  mark_peer_failed : Str → Str → Call
  set_outbound_connect_busy : Bool → Option Str → Call
  register_stream : Str → PeerState → Option Str → Call
  unregister_stream : Str → Option Str → Call
  update_stream_state : Str → PeerState → Option Str → Call
  touch_stream : Str → Option Str → Call
  register_inflight_message : ℕ → Option Str → Call
  acknowledge_inflight_message : ℕ → Option Str → Call
  clear_inflight_messages : Option Str → Call
  refresh_peer_health : Option Str → Call
  is_peer_secure_channel_ready : Option Str → Call
  mark_live_healthy : Option Str → Call
  mark_live_failure : Str → Bool → Option Str → Call
  schedule_reconnect_backoff : (Time → Time) → Str → Time → Time → Option Str → Call
  select_outbound_policy : Str → Option Bool → Option Bool → Option Str → Call
  invalidate_handshake_watchdog : Call
  cancel_tasks_and_close_session : Call

unfoldable pub settle : SessionManager → Result SessionManager → SessionManager
settle m (ok m') = m'
settle m value_error = m
settle m overflow_error = m

module _ (u : CaseMapping) where
  unfoldable pub step : Clock → Call → SessionManager → SessionManager
  step t (transition_transport state reason) m = Peers.transition_transport state reason m
  step t (transition_peer state reason) m = Peers.transition_peer state reason m
  step t (set_active_peer p) m = Peers.set_active_peer u p m
  step t (ensure_peer_transport p) m =
      settle m (Peers.ensure_peer_transport u (t 0) p m >>= λ r. ok r.2)
  step t (set_peer_connected p s) m = settle m (Lifecycle.set_peer_connected u t p s m)
  step t (set_peer_handshake_complete p) m =
      settle m (Lifecycle.set_peer_handshake_complete u t p m)
  step t (set_peer_disconnected p k) m = Lifecycle.set_peer_disconnected u t p k m
  step t (reset_peer_lifecycle p k d) m = (Lifecycle.reset_peer_lifecycle u t p k d m).1
  step t (mark_peer_failed p reason) m = settle m (Lifecycle.mark_peer_failed u t p reason m)
  step t (set_outbound_connect_busy b p) m = Lifecycle.set_outbound_connect_busy u b p m
  step t (register_stream d s p) m = settle m (Streams.register_stream u t d s p m)
  step t (unregister_stream d p) m = Streams.unregister_stream u t d p m
  step t (update_stream_state d s p) m = settle m (Streams.update_stream_state u t d s p m)
  step t (touch_stream d p) m = Streams.touch_stream u t d p m
  step t (register_inflight_message i p) m = settle m (Streams.register_inflight_message u t i p m)
  step t (acknowledge_inflight_message i p) m = (Streams.acknowledge_inflight_message u t i p m).1
  step t (clear_inflight_messages p) m = Streams.clear_inflight_messages u t p m
  step t (refresh_peer_health p) m = Health.refresh_peer_health u (t 0) p m
  step t (is_peer_secure_channel_ready p) m = (Health.is_peer_secure_channel_ready u (t 0) p m).1
  step t (mark_live_healthy p) m = settle m (Health.mark_live_healthy u t p m)
  step t (mark_live_failure reason s p) m = settle m (Health.mark_live_failure u t reason s p m)
  step t (schedule_reconnect_backoff j reason b x p) m =
      settle m (Backoff.schedule_reconnect_backoff u t j reason b x p m >>= λ r. ok r.1)
  step t (select_outbound_policy r c h p) m = (Policy.select_outbound_policy u (t 0) r c h p m).1
  step t invalidate_handshake_watchdog m = (Shutdown.invalidate_handshake_watchdog m).1
  step t cancel_tasks_and_close_session m = Shutdown.cancel_tasks_and_close_session m

  -- A run of calls, each with its own readings of the clock
  unfoldable pub run : List (Clock × Call) → SessionManager → SessionManager
  run [] m = m
  run ((t, c) ∷ calls) m = run calls (step t c m)
