-- ===== src/Session/Shutdown.antt =====
-- `invalidate_handshake_watchdog` and `cancel_tasks_and_close_session`, with nothing else running
-- while the cancelled tasks are awaited.
use i2pchat.Prelude.{ℕ, ◌+◌, false, Option, none, some, List, [], ◌∷◌, ◌++◌, if◌then◌else◌}
use i2pchat.Text.{codes}
use i2pchat.Session.State.{
  disconnected, no_reconnect, Task, Event, cancelled, closed, SessionManager,
}
use i2pchat.Session.Peers.{transition_peer}

-- `if task is not None and not task.done(): task.cancel()`
unfoldable pub cancel : Option Task → List Event
cancel none = []
cancel (some task) = if task.done then [] else cancelled task.id ∷ []

-- The generation that is returned is the state's new one.
unfoldable pub invalidate_handshake_watchdog : SessionManager → ℕ × SessionManager
invalidate_handshake_watchdog m =
    let generation = m.handshake_watchdog_generation + 1 in
    (
      generation,
      record m {
        events = m.events ++ cancel m.handshake_watchdog_task;
        handshake_watchdog_generation = generation;
        handshake_watchdog_task = none;
        handshake_watchdog_peer_id = none;
      },
    )

-- The loop over the names of the tasks, in the order of the tuple
unfoldable pub cancel_tasks : SessionManager → SessionManager
cancel_tasks m = record m {
  events =
      m.events
      ++ (cancel m.accept_task
          ++ (cancel m.tunnel_task
              ++ (cancel m.keepalive_task
                  ++ (cancel m.handshake_watchdog_task ++ cancel m.disconnect_task))));
  accept_task = none;
  tunnel_task = none;
  keepalive_task = none;
  handshake_watchdog_task = none;
  disconnect_task = none;
}

-- `writer.close()`, whose exceptions are dropped
unfoldable pub close_socket : SessionManager → SessionManager
close_socket m = elim m.session_socket [
  | none ↦ m
  | some writer ↦ record m { events = m.events ++ closed writer ∷ []; session_socket = none }
]

-- The peers are reset one by one before the table is emptied, so nothing of them is left.
unfoldable pub cancel_tasks_and_close_session : SessionManager → SessionManager
cancel_tasks_and_close_session m =
    let m' = record (close_socket (cancel_tasks m)) {
      outbound_connect_busy = false;
      disconnecting = false;
      peer_transport = [];
      active_peer_id = [];
      outbound_streams = [];
      reconnect = no_reconnect;
    } in
    transition_peer disconnected (codes "shutdown") (invalidate_handshake_watchdog m').1
