-- ===== src/Groups/Mesh.antt =====
-- The planner of i2pchat/groups/mesh.py. The environment, the group states, the local member and the
-- snapshot of a peer are what the callbacks return; a time is a number of microseconds.
pub mod Schedule
pub mod Peers
use i2pchat.Prelude.{
  ℕ, min, max, Bool, true, false, ◌&&◌, ◌||◌, not, Option, none, some, List, [], ◌∷◌, ◌++◌, ltb,
  leb, ◌==◌, if◌then◌else◌, is_empty, is_some, get_or, map, take, length, ℤ, pos, negsuc,
}
use i2pchat.Text.{Str, codes, str_eq, str_in}
use i2pchat.Text.Strip.{strip}
use i2pchat.Text.Case.{CaseMapping}
use i2pchat.Text.Order.{str_leb, parse_int}
use i2pchat.PeerAddress.{normalize_member_id}
use i2pchat.Sorting.{sort}
use i2pchat.Groups.Models.{GroupState}

pub record GroupMeshPeerSnapshot : Type 0 where
  pub peer_id : Str
  pub peer_state : Str
  pub live_ready : Bool
  pub active_session : Bool
  pub blindbox_ready : Bool
  pub next_retry_mono : ℕ

-- `os.environ`
abbrev pub Environ : Type 0
Environ = Str → Option Str

module _ (u : CaseMapping) (environ : Environ) where
  unfoldable pub env_truthy : Str → Str → Bool
  env_truthy name default = not (
      str_in (u.lower (strip (get_or default (environ name))))
        (codes "0" ∷ codes "false" ∷ codes "no" ∷ codes "off" ∷ []))

  -- `enabled`
  unfoldable pub enabled : Bool
  enabled =
      if is_some (environ (codes "I2PCHAT_GROUP_AUTO_MESH"))
      then env_truthy (codes "I2PCHAT_GROUP_AUTO_MESH") (codes "1")
      else env_truthy (codes "I2PCHAT_GROUP_AUTO_INTRO") (codes "1")

  unfoldable pub connect_offline_ready_peers : Bool
  connect_offline_ready_peers =
      env_truthy (codes "I2PCHAT_GROUP_AUTO_MESH_CONNECT_OFFLINE_READY") (codes "0")

-- `max(minimum, min(maximum, value))`
unfoldable pub clamp : ℕ → ℕ → ℤ → ℕ
clamp minimum maximum (pos n) = max minimum (min maximum n)
clamp minimum maximum (negsuc n) = minimum

-- `_env_int`, whose default is not negative
unfoldable pub env_int : Environ → Str → ℕ → ℕ → ℕ → ℕ
env_int environ name default minimum maximum =
    clamp minimum maximum
      (elim (environ name) [ none ↦ pos default | some raw ↦ get_or (pos default) (parse_int raw) ])

unfoldable pub max_scheduled_per_tick : Environ → ℕ
max_scheduled_per_tick environ =
    env_int environ (codes "I2PCHAT_GROUP_AUTO_MESH_MAX_PER_TICK") 3 1 64

module _ (u : CaseMapping) where
  -- The loop over the members of a group; the peers that were found stand also for the set `seen`.
  unfoldable pub add_members : Str → List Str → List Str → List Str
  add_members local_member_id [] peers = peers
  add_members local_member_id (member_id ∷ rest) peers =
      let normalized = normalize_member_id u member_id in
      let skip =
        is_empty normalized || str_eq normalized local_member_id || str_in normalized peers in
      add_members local_member_id rest (if skip then peers else peers ++ normalized ∷ [])

  unfoldable pub add_groups : Str → List GroupState → List Str → List Str
  add_groups local_member_id [] peers = peers
  add_groups local_member_id (state ∷ states) peers =
      add_groups local_member_id states (add_members local_member_id state.members peers)

  -- `_iter_group_peers`; the local member is `none` where its callback raises.
  unfoldable pub iter_group_peers : Option Str → List GroupState → List Str
  iter_group_peers none states = []
  iter_group_peers (some local) states =
      let local_member_id = normalize_member_id u local in
      if is_empty local_member_id then [] else add_groups local_member_id states []

-- `{"failed": 0, "stale": 1, "disconnected": 2}.get(peer_state, 3)`
unfoldable pub state_priority : Str → ℕ
state_priority peer_state =
    if str_eq peer_state (codes "failed")
    then 0
    else if str_eq peer_state (codes "stale")
    then 1
    else if str_eq peer_state (codes "disconnected")
    then 2
    else 3

-- Whether the loop reaches its last line
unfoldable pub is_due : Bool → ℕ → GroupMeshPeerSnapshot → Bool
is_due connect_offline_ready now snapshot =
    not (snapshot.live_ready || snapshot.active_session)
    && (not (
          str_in snapshot.peer_state
            (codes "connecting" ∷ codes "handshaking" ∷ codes "secure" ∷ []))
        && (leb snapshot.next_retry_mono now
            && not (snapshot.blindbox_ready && not connect_offline_ready)))

pub record Candidate : Type 0 where
  pub priority : ℕ
  pub next_retry : ℕ
  pub peer : Str

-- `(state_priority, snapshot.next_retry_mono, snapshot.peer_id)`
unfoldable pub candidate_of : GroupMeshPeerSnapshot → Candidate
candidate_of snapshot = record {
  priority = state_priority snapshot.peer_state;
  next_retry = snapshot.next_retry_mono;
  peer = snapshot.peer_id;
}

-- `<=` on the keys
unfoldable pub no_later : Candidate → Candidate → Bool
no_later a b =
    if ltb a.priority b.priority
    then true
    else if ltb b.priority a.priority
    then false
    else if ltb a.next_retry b.next_retry
    then true
    else if ltb b.next_retry a.next_retry
    then false
    else str_leb a.peer b.peer

-- The loop of `collect_due_peer_intros`
unfoldable pub candidates : (Str → GroupMeshPeerSnapshot) → Bool → ℕ → List Str → List Candidate
candidates build_peer_snapshot connect_offline_ready now [] = []
candidates build_peer_snapshot connect_offline_ready now (peer_id ∷ rest) =
    let snapshot = build_peer_snapshot peer_id in
    let others = candidates build_peer_snapshot connect_offline_ready now rest in
    if is_due connect_offline_ready now snapshot then candidate_of snapshot ∷ others else others

module _ (u : CaseMapping) (environ : Environ)
    (build_peer_snapshot : Str → GroupMeshPeerSnapshot) where
  unfoldable pub collect_due_peer_intros : ℕ → Option Str → List GroupState → List Str
  collect_due_peer_intros now local states =
      if not (enabled u environ)
      then []
      else map (λ c. c.peer)
          (take (max_scheduled_per_tick environ) (
            sort no_later (
              candidates build_peer_snapshot (connect_offline_ready_peers u environ) now
                (iter_group_peers u local states))))

  -- `tick`: what it returns, and what it gives to `schedule_peer_intros`, if it calls it
  unfoldable pub tick : ℕ → Option Str → List GroupState → List Str × Option (List Str)
  tick now local states =
      let peers = collect_due_peer_intros now local states in
      (peers, if is_empty peers then none else some peers)
