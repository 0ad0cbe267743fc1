-- ===== src/Examples/Session.antt =====
-- The session manager with one or two peers.
use i2pchat.Prelude.{
  ℕ, ◌+◌, ◌*◌, ◌≤◌, ◌≡◌, refl, min, true, false, ◌&&◌, ◌||◌, not, none, some, List, [], ◌∷◌, inl,
  ◌⊎◌, arith, is_empty,
}
use i2pchat.Text.{Str, codes, str_eq, before_suffix?}
use i2pchat.Text.Strip.{strip, lstrip, rstrip, is_space}
use i2pchat.Text.Case.{ascii, ascii_lower}
use i2pchat.Dict.{lookup}
use i2pchat.PeerAddress.{is_host, host_of, normalize_peer_address, normalize_peer_id}
use i2pchat.Session.State.{
  overflow_error, Clock, Time, disconnected, secure, stale, peer_state_eq, PeerTransportState,
  new_peer, SessionManager, init, ok,
}
use i2pchat.Session.Peers.{resolve_peer_id, derive_aggregate_peer_state}
use i2pchat.Session.Lifecycle.{mark_peer_failed, set_peer_disconnected}
use i2pchat.Session.Health.{is_peer_secure_channel_ready, has_expired, mark_live_healthy}
use i2pchat.Session.Health.Ready.{refreshed, is_ready_exact}
use i2pchat.Session.Policy.{is_live_path_alive}
use i2pchat.Session.Policy.Live.{mark_live_healthy-alive, offline_after}
use i2pchat.Session.Backoff.{backoff_delay}
use i2pchat.Session.Backoff.Delays.{backoff_delay_bounds}
use i2pchat.Session.Calls.{
  Call, run, register_stream, register_inflight_message, mark_live_healthy as live_ok,
  set_peer_disconnected as disconnect,
}
use i2pchat.Session.Views.{IsSynced}
use i2pchat.Session.Views.Runs.{run-IsSynced, init-IsSynced}
use i2pchat.Session.Aggregate.{HasPeerIn, AllBelow, derive_greatest}

abbrev at : ℕ → Clock
at n i = n + i

abbrev alice : Str
alice = codes "alice"

-- Connected, with its handshake done, and heard of at 5
abbrev secure_peer : PeerTransportState
secure_peer = record (new_peer alice 5) {
  peer_state = secure;
  connected = true;
  handshake_complete = true;
}

abbrev empty_manager : SessionManager
empty_manager = init 120 true true true

abbrev one_peer : SessionManager
one_peer = record empty_manager { peer_transport = (alice, secure_peer) ∷ [] }

abbrev calls : List (Clock × Call)
calls =
    (at 10, register_stream alice secure none)
    ∷ (at 20, register_inflight_message 7 (some alice))
    ∷ (at 30, live_ok (some (codes "bob")))
    ∷ (at 40, disconnect alice false)
    ∷ []

run-IsSynced_example : IsSynced (run ascii calls empty_manager)
unfolding normalize_peer_id normalize_peer_address host_of strip lstrip rstrip is_space ascii_lower
    is_host before_suffix? str_eq
run-IsSynced_example =
    run-IsSynced ascii calls empty_manager (refl, (tt, (tt, (tt, tt))))
      (init-IsSynced 120 true true true)

named_alice : is_empty (resolve_peer_id ascii (some alice)) ≡ false
unfolding resolve_peer_id normalize_peer_id normalize_peer_address host_of strip lstrip rstrip
    is_space ascii_lower is_host before_suffix? str_eq
named_alice = refl

found_alice : lookup (resolve_peer_id ascii (some alice)) one_peer.peer_transport ≡ some secure_peer
unfolding resolve_peer_id normalize_peer_id normalize_peer_address host_of strip lstrip rstrip
    is_space ascii_lower lookup str_eq is_host before_suffix?
found_alice = refl

is_ready_exact_example :
    let r = is_peer_secure_channel_ready ascii 60 (some alice) one_peer in
    (r.0 ≡ (
      true
      && true
      && not (
          true
          && (peer_state_eq secure stale
              || (peer_state_eq secure secure && has_expired 120 60 secure_peer)))))
    × (lookup (resolve_peer_id ascii (some alice)) r.1.peer_transport
        ≡ some (refreshed 120 60 secure_peer))
unfolding peer_state_eq init
is_ready_exact_example =
    is_ready_exact ascii 60 (some alice) one_peer secure_peer named_alice found_alice

mark_live_healthy-alive_example :
    (m' : SessionManager) × (mark_live_healthy ascii (at 50) (some alice) one_peer ≡ ok m')
    × ((is_live_path_alive ascii 100 none none (some alice) m').0 ≡ true)
unfolding init
mark_live_healthy-alive_example =
    mark_live_healthy-alive ascii (at 50) 100 (some alice) one_peer named_alice (inl (omega arith))

named_bare : is_empty (normalize_peer_id ascii alice) ≡ false
unfolding normalize_peer_id normalize_peer_address host_of strip lstrip rstrip is_space ascii_lower
    is_host before_suffix? str_eq
named_bare = refl

offline_after_example :
    ((m' : SessionManager) × (mark_peer_failed ascii (at 50) alice (codes "timeout") one_peer
        ≡ ok m')
      × ((is_live_path_alive ascii 100 none none (some alice) m').0 ≡ false))
    × ((is_live_path_alive ascii 100 none none
          (some alice)
          (set_peer_disconnected ascii (at 50) alice true one_peer)).0
        ≡ false)
offline_after_example =
    offline_after ascii (at 50) 100 alice one_peer named_bare (codes "timeout") true

abbrev half : Time → Time
half d = d

backoff_delay_bounds_example :
    (x y z : Time) × (backoff_delay 2 30 3 ≡ ok x)
    × (backoff_delay 2 30 6 ≡ ok y)
    × (backoff_delay 2 30 4 ≡ ok z)
    × (backoff_delay 2 30 1025 ≡ overflow_error)
    × (x ≤ 30)
    × (min 30 2 ≤ x)
    × (x ≤ y)
    × (z ≡ min 30 (2 * x))
backoff_delay_bounds_example =
    backoff_delay_bounds 2 30 2 5 1025 (omega arith) (omega arith) (omega arith) (omega arith)

derive_greatest_example :
    let d = one_peer.peer_transport in
    AllBelow (derive_aggregate_peer_state d) d
    × ((derive_aggregate_peer_state d ≡ disconnected) ⊎ HasPeerIn (derive_aggregate_peer_state d) d)
derive_greatest_example = derive_greatest one_peer.peer_transport
