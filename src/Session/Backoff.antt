-- ===== src/Session/Backoff.antt =====
-- `schedule_reconnect_backoff` and `get_reconnect_metadata`.
pub mod Delays
pub mod Recorded
pub mod Schedule
use i2pchat.Prelude.{
  ℕ, ◌+◌, ◌-◌, ◌*◌, ◌^◌, min, max, leb, Option, none, some, [], if◌then◌else◌, is_empty,
}
use i2pchat.Text.{Str}
use i2pchat.Text.Case.{CaseMapping}
use i2pchat.PeerAddress.{normalize_peer_id}
use i2pchat.Dict.{lookup}
use i2pchat.Session.State.{
  Time, Clock, reconnecting, PeerTransportState, ReconnectMetadata, SessionManager, Result, ok,
  overflow_error, ◌>>=◌,
}
use i2pchat.Session.Peers.{sync_legacy_views, touch_peer, store, or_text, ensure_peer_transport}
use i2pchat.Session.Health.{transition_unless_ready}

-- The number of the next attempt
unfoldable pub next_attempt : ReconnectMetadata → ℕ
next_attempt reconnect = max 1 (reconnect.attempt + 1)

-- The delay where the product does not overflow
unfoldable pub delay_of : Time → Time → ℕ → Time
delay_of base_delay max_delay attempt = min max_delay (base_delay * 2 ^ (attempt - 1))

-- The delay before jitter: it doubles with each attempt, up to the largest. The base delay is a float, as its
-- default is, and an integer from `2 ** 1024` on cannot be converted to one. A product that is infinite
-- is above the largest delay all the same.
unfoldable pub backoff_delay : Time → Time → ℕ → Result Time
backoff_delay base_delay max_delay attempt =
    if leb attempt 1024 then ok (delay_of base_delay max_delay attempt) else overflow_error

unfoldable pub next_metadata : Str → Time → Time → ReconnectMetadata → ReconnectMetadata
next_metadata reason now effective_delay reconnect = record {
  attempt = next_attempt reconnect;
  next_retry_mono = now + effective_delay;
  last_failure_mono = now;
  last_failure_reason = reason;
}

-- The peer part
unfoldable pub backed_off_peer :
    Str → Time → Time → ReconnectMetadata → PeerTransportState → PeerTransportState
backed_off_peer reason now touched metadata peer = touch_peer touched (record peer {
  reconnect = metadata;
  last_failure_reason = reason;
  last_live_failure_mono = now;
})

module _ (u : CaseMapping) where
  -- `jitter` is what `random.uniform` returns for the delay.
  unfoldable pub schedule_reconnect_backoff :
      Clock
      → (Time → Time)
      → Str
      → Time
      → Time
      → Option Str
      → SessionManager
      → Result (Time × SessionManager)
  schedule_reconnect_backoff t jitter reason base_delay max_delay peer_id m =
      let later = λ (i : ℕ). t (i + 3) in
      let key = normalize_peer_id u (or_text peer_id []) in
      if is_empty key
      then (do
        delay ← backoff_delay base_delay max_delay (next_attempt m.reconnect)
        let metadata = next_metadata reason (t 1) (delay + jitter delay) m.reconnect
        ok (
          delay + jitter delay,
          transition_unless_ready u later reconnecting reason (record m { reconnect = metadata }),
        ))
      else do
        (k, peer, m') ← ensure_peer_transport u (t 0) key m
        delay ← backoff_delay base_delay max_delay (next_attempt peer.reconnect)
        let metadata = next_metadata reason (t 1) (delay + jitter delay) peer.reconnect
        let peer' = backed_off_peer reason (t 1) (t 2) metadata peer
        ok (
          delay + jitter delay,
          transition_unless_ready u later reconnecting reason
              (sync_legacy_views (store k peer' m')),
        )

  unfoldable pub get_reconnect_metadata : Option Str → SessionManager → ReconnectMetadata
  get_reconnect_metadata peer_id m =
      let key = normalize_peer_id u (or_text peer_id []) in
      if is_empty key
      then m.reconnect
      else elim (lookup key m.peer_transport) [ some peer ↦ peer.reconnect | none ↦ m.reconnect ]
