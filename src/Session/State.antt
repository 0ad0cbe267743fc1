-- ===== src/Session/State.antt =====
-- The enums, the records and the state of i2pchat/core/session_manager.py. Times are ticks of the
-- monotonic clock, in microseconds.
use i2pchat.Prelude.{ℕ, ◌≡◌, ◌↔◌, Bool, true, false, Option, none, List, [], arith}
use i2pchat.Text.{Str}
use i2pchat.Dict.{Dict}

abbrev pub Time : Type 0
Time = ℕ

-- The readings of `time.monotonic()` during one call, by the place in the code that reads it.
abbrev pub Clock : Type 0
Clock = ℕ → Time

pub data TransportState : Type 0 where
  stopped starting sam_connected warming_tunnels ready degraded reconnecting : TransportState
  shutting_down failed : TransportState

pub data PeerState : Type 0 where
  disconnected connecting handshaking secure stale failed : PeerState

pub data OutboundPolicy : Type 0 where
  live_only prefer_live_fallback_blindbox queue_then_retry_live blindbox_only : OutboundPolicy

unfoldable pub peer_state_eq : PeerState → PeerState → Bool
peer_state_eq disconnected disconnected = true
peer_state_eq connecting connecting = true
peer_state_eq handshaking handshaking = true
peer_state_eq secure secure = true
peer_state_eq stale stale = true
peer_state_eq PeerState.failed PeerState.failed = true
peer_state_eq _ _ = false

unfoldable pub transport_state_eq : TransportState → TransportState → Bool
transport_state_eq stopped stopped = true
transport_state_eq starting starting = true
transport_state_eq sam_connected sam_connected = true
transport_state_eq warming_tunnels warming_tunnels = true
transport_state_eq ready ready = true
transport_state_eq degraded degraded = true
transport_state_eq reconnecting reconnecting = true
transport_state_eq shutting_down shutting_down = true
transport_state_eq TransportState.failed TransportState.failed = true
transport_state_eq _ _ = false

pub peer_state_eq_iff : (a b : PeerState) → (peer_state_eq a b ≡ true) ↔ (a ≡ b)
unfolding peer_state_eq
peer_state_eq_iff a b = (λ h. ground arith, λ h. ground arith)

pub record ReconnectMetadata : Type 0 where
  pub attempt : ℕ
  pub next_retry_mono : Time
  pub last_failure_mono : Time
  pub last_failure_reason : Str

abbrev pub no_reconnect : ReconnectMetadata
no_reconnect = record {
  attempt = 0;
  next_retry_mono = 0;
  last_failure_mono = 0;
  last_failure_reason = [];
}

pub record OutboundStreamInfo : Type 0 where
  pub destination : Str
  pub opened_at_mono : Time
  pub last_activity_mono : Time
  pub state : PeerState
  pub inflight_msg_ids : List ℕ

pub record PeerTransportState : Type 0 where
  pub peer_id : Str
  pub peer_state : PeerState
  pub connected : Bool
  pub handshake_complete : Bool
  pub secure_since_mono : Time
  pub stale_since_mono : Time
  pub last_activity_mono : Time
  pub last_live_ok_mono : Time
  pub last_live_failure_mono : Time
  pub last_failure_reason : Str
  pub reconnect : ReconnectMetadata
  pub outbound_streams : Dict OutboundStreamInfo
  pub inflight_msg_ids : List ℕ

-- `PeerTransportState(peer_id=…)`, made at `now`
abbrev pub new_peer : Str → Time → PeerTransportState
new_peer peer_id now = record {
  peer_id = peer_id;
  peer_state = disconnected;
  connected = false;
  handshake_complete = false;
  secure_since_mono = 0;
  stale_since_mono = 0;
  last_activity_mono = now;
  last_live_ok_mono = 0;
  last_live_failure_mono = 0;
  last_failure_reason = [];
  reconnect = no_reconnect;
  outbound_streams = [];
  inflight_msg_ids = [];
}

-- An `asyncio.Task`: which one, and whether it is done.
pub record Task : Type 0 where
  pub id : ℕ
  pub done : Bool

-- What a call does to the outside: the callbacks that it makes, the tasks that it cancels, the
-- socket that it closes.
pub data Event : Type 0 where
  transport_changed : TransportState → TransportState → Str → Event
  peer_changed : PeerState → PeerState → Str → Event
  cancelled : ℕ → Event
  closed : ℕ → Event

-- The stream mirror holds references to the peers' own stream objects: for each destination, the
-- peer that owns the stream.
pub record SessionManager : Type 0 where
  pub transport_state : TransportState
  pub peer_state : PeerState
  pub active_peer_id : Str
  pub peer_transport : Dict PeerTransportState
  pub secure_session_ttl : Time
  pub treat_stale_as_offline : Bool
  pub session_socket : Option ℕ
  pub accept_task : Option Task
  pub tunnel_task : Option Task
  pub keepalive_task : Option Task
  pub handshake_watchdog_task : Option Task
  pub handshake_watchdog_generation : ℕ
  pub handshake_watchdog_peer_id : Option Str
  pub disconnect_task : Option Task
  pub disconnecting : Bool
  pub outbound_connect_busy : Bool
  pub outbound_streams : Dict Str
  pub reconnect : ReconnectMetadata
  pub last_live_ok_mono : Time
  pub last_live_failure_mono : Time
  pub on_transport_state_change : Bool
  pub on_peer_state_change : Bool
  pub events : List Event

-- `SessionManager(…)`; a time to live below 0 counts as 0, which the type of times does.
unfoldable pub init : Time → Bool → Bool → Bool → SessionManager
init ttl stale_offline on_transport on_peer = record {
  transport_state = stopped;
  peer_state = disconnected;
  active_peer_id = [];
  peer_transport = [];
  secure_session_ttl = ttl;
  treat_stale_as_offline = stale_offline;
  session_socket = none;
  accept_task = none;
  tunnel_task = none;
  keepalive_task = none;
  handshake_watchdog_task = none;
  handshake_watchdog_generation = 0;
  handshake_watchdog_peer_id = none;
  disconnect_task = none;
  disconnecting = false;
  outbound_connect_busy = false;
  outbound_streams = [];
  reconnect = no_reconnect;
  last_live_ok_mono = 0;
  last_live_failure_mono = 0;
  on_transport_state_change = on_transport;
  on_peer_state_change = on_peer;
  events = [];
}

-- A method that may raise `ValueError` or `OverflowError`
pub data Result {ℓ} (A : Type ℓ) : Type ℓ where
  ok : A → Result A
  value_error : Result A
  overflow_error : Result A

infixl 5 ◌>>=◌
abbrev pub ◌>>=◌ {ℓ κ} : {A : Type ℓ} {B : Type κ} → Result A → (A → Result B) → Result B
ok a >>= f = f a
value_error >>= f = value_error
overflow_error >>= f = overflow_error
