-- ===== src/Groups/Topology.antt =====
-- `build_observed_group_topology` and the two renderings of i2pchat/groups/topology.py. The maps by member
-- are dictionaries; one that is `None` is empty.
pub mod Edges
pub mod Render
use i2pchat.Prelude.{
  ℕ, ◌-◌, Bool, true, false, ◌&&◌, ◌||◌, not, Option, none, some, List, [], ◌∷◌, ◌++◌, ltb, leb,
  if◌then◌else◌, is_empty, is_some, get_or, map, take, drop, length, any, keep, ◌==◌,
}
use i2pchat.Text.{Str, codes, str_eq, str_in, before_suffix?}
use i2pchat.Text.Strip.{strip}
use i2pchat.Text.Case.{CaseMapping}
use i2pchat.Dict.{Dict, lookup, put}
use i2pchat.PeerAddress.{normalize_member_id, suffix}
use i2pchat.Groups.Models.{GroupState}

pub data LinkState : Type 0 where
  live handshaking await_root blindbox degraded failed idle : LinkState

-- The value of the `StrEnum`
unfoldable pub link_text : LinkState → Str
link_text live = codes "live"
link_text handshaking = codes "handshaking"
link_text await_root = codes "await-root"
link_text blindbox = codes "blindbox"
link_text degraded = codes "degraded"
link_text failed = codes "failed"
link_text idle = codes "idle"

pub record GroupTopologyNode : Type 0 where
  pub member_id : Str
  pub label : Str
  pub is_local : Bool
  pub peer_state : Str
  pub live_ready : Bool
  pub blindbox_ready : Bool
  pub last_delivery_status : Str
  pub last_delivery_reason : Str

pub record GroupTopologyEdge : Type 0 where
  pub source_id : Str
  pub target_id : Str
  pub state : LinkState
  pub label : Str
  pub peer_state : Str
  pub live_ready : Bool
  pub blindbox_ready : Bool
  pub last_delivery_status : Str
  pub last_delivery_reason : Str

pub record GroupTopologySnapshot : Type 0 where
  pub group_id : Str
  pub title : Option Str
  pub local_member_id : Str
  pub observed_only : Bool
  pub nodes : List GroupTopologyNode
  pub edges : List GroupTopologyEdge
  pub group_blindbox_ready : Bool
  pub await_group_root : Bool

-- `_link_state_for_member`
unfoldable pub link_state_for_member : Str → Bool → Bool → Bool → LinkState
link_state_for_member peer_state live_ready blindbox_ready await_group_root =
    if live_ready
    then live
    else if str_in peer_state (codes "handshaking" ∷ codes "connecting" ∷ [])
    then handshaking
    else if str_eq peer_state (codes "failed")
    then failed
    else if str_eq peer_state (codes "stale")
    then degraded
    else if blindbox_ready
    then blindbox
    else if await_group_root
    then await_root
    else idle

-- `state != GroupTopologyLinkState.BLINDBOX`
unfoldable pub is_not_blindbox : LinkState → Bool
is_not_blindbox blindbox = false
is_not_blindbox _ = true

-- `sep.join(parts)`
unfoldable pub join : Str → List Str → Str
join sep [] = []
join sep (part ∷ []) = part
join sep (part ∷ other ∷ rest) = part ++ sep ++ join sep (other ∷ rest)

-- `parts.append(part)` under a test
unfoldable pub part_if : Bool → Str → List Str
part_if test part = if test then part ∷ [] else []

unfoldable pub edge_label : LinkState → Bool → Str → Str
edge_label state blindbox_ready last_delivery_status = join (codes ", ") (
    link_text state ∷ []
    ++ part_if (blindbox_ready && is_not_blindbox state) (codes "blindbox")
    ++ part_if (not (is_empty last_delivery_status)) (codes "last=" ++ last_delivery_status))

module _ (u : CaseMapping) where
  -- `_short_member_label` with its default
  unfoldable pub short_member_label : Str → Str
  short_member_label member_id =
      let normalized = normalize_member_id u member_id in
      if is_empty normalized
      then codes "Peer"
      else let host = get_or normalized (before_suffix? suffix normalized) in
        if leb (length host) 14
        then host
        else take 6 host ++ codes ".." ++ drop (length host - 6) host

  unfoldable pub normalize_status_text : Str → Str
  normalize_status_text value = u.lower (strip value)

  -- The three comprehensions: an entry under the canonical key, where key and value are not empty.
  unfoldable pub blindbox_by_member : Dict Bool → Dict Bool → Dict Bool
  blindbox_by_member [] entries = entries
  blindbox_by_member ((member_id, ready) ∷ rest) entries =
      let key = normalize_member_id u member_id in
      blindbox_by_member rest (if is_empty key then entries else put key ready entries)

  unfoldable pub text_by_member : (Str → Str) → Dict Str → Dict Str → Dict Str
  text_by_member normal [] entries = entries
  text_by_member normal ((member_id, raw) ∷ rest) entries =
      let key = normalize_member_id u member_id in
      let text = normal raw in
      text_by_member normal rest
        (if is_empty key || is_empty text then entries else put key text entries)

-- What is read of each member: the arguments of the function, and the maps made of them.
pub record Observed : Type 0 where
  pub live_by_member : Dict Bool
  pub peer_state_by_member : Dict Str
  pub blindbox_ready : Dict Bool
  pub delivery_status : Dict Str
  pub delivery_reason : Dict Str

module _ (u : CaseMapping) where
  unfoldable pub observe : Dict Bool → Dict Str → Dict Bool → Dict Str → Dict Str → Observed
  observe live_by_member peer_state_by_member blindbox_ready status reason = record {
    live_by_member = live_by_member;
    peer_state_by_member = peer_state_by_member;
    blindbox_ready = blindbox_by_member u blindbox_ready [];
    delivery_status = text_by_member u (normalize_status_text u) status [];
    delivery_reason = text_by_member u strip reason [];
  }

  -- `str(… or "disconnected")`
  unfoldable pub state_or_disconnected : Str → Str
  state_or_disconnected peer_state =
      if is_empty peer_state then codes "disconnected" else peer_state

  unfoldable pub node_of : Observed → Str → Str → GroupTopologyNode
  node_of o normalized_local member_id =
      let is_local = not (is_empty normalized_local) && str_eq member_id normalized_local in
      record {
        member_id = member_id;
        label = if is_local then codes "You" else short_member_label u member_id;
        is_local = is_local;
        peer_state =
            state_or_disconnected
              (get_or (codes "disconnected") (lookup member_id o.peer_state_by_member));
        live_ready = get_or false (lookup member_id o.live_by_member);
        blindbox_ready = get_or false (lookup member_id o.blindbox_ready);
        last_delivery_status = get_or [] (lookup member_id o.delivery_status);
        last_delivery_reason = get_or [] (lookup member_id o.delivery_reason);
      }

unfoldable pub edge_of : Str → Bool → GroupTopologyNode → GroupTopologyEdge
edge_of normalized_local await_group_root node =
    let state =
      link_state_for_member node.peer_state node.live_ready node.blindbox_ready await_group_root in
    record {
      source_id = normalized_local;
      target_id = node.member_id;
      state = state;
      label = edge_label state node.blindbox_ready node.last_delivery_status;
      peer_state = node.peer_state;
      live_ready = node.live_ready;
      blindbox_ready = node.blindbox_ready;
      last_delivery_status = node.last_delivery_status;
      last_delivery_reason = node.last_delivery_reason;
    }

module _ (u : CaseMapping) (o : Observed) (normalized_local : Str) (await_group_root : Bool) where
  -- The loop over the members, with the lists that it appends to
  unfoldable pub add_members :
      List Str
      → List GroupTopologyNode
      → List GroupTopologyEdge
      → List GroupTopologyNode × List GroupTopologyEdge
  add_members [] nodes edges = (nodes, edges)
  add_members (raw_member ∷ rest) nodes edges =
      let member_id = normalize_member_id u raw_member in
      let node = node_of u o normalized_local member_id in
      let blank = is_empty member_id in
      let no_edge = blank || node.is_local || is_empty normalized_local in
      add_members rest (if blank then nodes else nodes ++ node ∷ [])
        (if no_edge then edges else edges ++ edge_of normalized_local await_group_root node ∷ [])

unfoldable pub build_observed_group_topology :
    CaseMapping
    → GroupState
    → Str
    → Dict Bool
    → Dict Str
    → Bool
    → Bool
    → Dict Bool
    → Dict Str
    → Dict Str
    → GroupTopologySnapshot
build_observed_group_topology u state local_member_id live_by_member peer_state_by_member
      group_blindbox_ready await_group_root blindbox_ready status reason =
    let normalized_local = normalize_member_id u local_member_id in
    let o = observe u live_by_member peer_state_by_member blindbox_ready status reason in
    let (nodes, edges) = add_members u o normalized_local await_group_root state.members [] [] in
    record {
      group_id = state.group_id;
      title = state.title;
      local_member_id = normalized_local;
      observed_only = true;
      nodes = nodes;
      edges = edges;
      group_blindbox_ready = group_blindbox_ready;
      await_group_root = await_group_root;
    }
