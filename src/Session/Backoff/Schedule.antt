-- ===== src/Session/Backoff/Schedule.antt =====
-- A reconnect that is scheduled counts one more attempt of its peer.
use i2pchat.Prelude.{◌+◌, ◌≤◌, ◌≡◌, false, Option, is_empty}
use i2pchat.Text.{Str}
use i2pchat.Text.Case.{CaseMapping}
use i2pchat.PeerAddress.{normalize_peer_id}
use i2pchat.Session.State.{
  Time, Clock, reconnecting, PeerTransportState, SessionManager, Result, ok,
}
use i2pchat.Session.Peers.{store, sync_legacy_views, resolve_peer_id}
use i2pchat.Session.Health.{transition_unless_ready}
use i2pchat.Session.Backoff.{
  next_attempt, delay_of, next_metadata, backed_off_peer, get_reconnect_metadata,
}
use i2pchat.Session.Backoff.Recorded.{attempts_of}

module _ (u : CaseMapping) (t : Clock) (reason : Str) (p : Option Str)
    (named : is_empty (resolve_peer_id u p) ≡ false) where
  -- The state at the end of the call, from the peer as it is written
  scheduled_state : PeerTransportState → SessionManager → SessionManager
  scheduled_state peer' n =
      transition_unless_ready u (λ i. t (i + 3)) reconnecting reason
        (sync_legacy_views (store (normalize_peer_id u (resolve_peer_id u p)) peer' n))

module _ (u : CaseMapping) (t : Clock) (jitter : Time → Time) (reason : Str) (base max_delay : Time)
    (p : Option Str) (m : SessionManager) (named : is_empty (resolve_peer_id u p) ≡ false)
    (few : next_attempt (attempts_of (resolve_peer_id u p) m) ≤ 1024) where
  Scheduled : Result (Time × SessionManager) → Type 0
  Scheduled r =
      let before = attempts_of (resolve_peer_id u p) m in
      let delay = delay_of base max_delay (next_attempt before) in
      (m' : SessionManager) × (r ≡ ok (delay + jitter delay, m'))
      × (get_reconnect_metadata u p m' ≡ next_metadata reason (t 1) (delay + jitter delay) before)

  -- What is left once the delay is known
  written : PeerTransportState → SessionManager → Time → Result (Time × SessionManager)
  written peer n delay =
      let metadata = next_metadata reason (t 1) (delay + jitter delay) peer.reconnect in
      ok (
        delay + jitter delay,
        scheduled_state u t reason p named (backed_off_peer reason (t 1) (t 2) metadata peer) n,
      )
