-- ===== src/Groups/Topology/Render/Lines.antt =====
-- Every edge of a snapshot has its line.
use i2pchat.Prelude.{
  ◌≡◌, refl, ◌∙◌, sym, ap, suc, Bool, true, not, none, List, [], ◌∷◌, is_empty, is_some, length,
  map, keep, All, Option-cases, Bool-cases, inl, inr, if_rule, subst,
}
use i2pchat.Text.{Str}
use i2pchat.Text.Case.{CaseMapping}
use i2pchat.Dict.{Dict, lookup, has_key, has_key-put, has_key-put_self}
use i2pchat.PeerAddress.{normalize_member_id}
use i2pchat.Groups.Models.{GroupState}
use i2pchat.Groups.Topology.{
  GroupTopologyNode, GroupTopologyEdge, edge_of, build_observed_group_topology,
}
use i2pchat.Groups.Topology.Edges.{edge_to, edges_of, build_topology-edges}
use i2pchat.Groups.Topology.Render.{node_by_id, edge_lines}

node_by_id-keeps :
    (k : Str) (nodes : List GroupTopologyNode) (entries : Dict GroupTopologyNode)
    → has_key k entries ≡ true
    → has_key k (node_by_id nodes entries) ≡ true
unfolding node_by_id
node_by_id-keeps k [] entries h = h
node_by_id-keeps k (n ∷ nodes) entries h =
    node_by_id-keeps k nodes _ (has_key-put k n.member_id n entries h)

node_by_id-has :
    (nodes : List GroupTopologyNode) (entries : Dict GroupTopologyNode)
    → All (λ n. has_key n.member_id (node_by_id nodes entries) ≡ true) nodes
unfolding node_by_id
node_by_id-has [] entries = tt
node_by_id-has (n ∷ nodes) entries = (
  node_by_id-keeps n.member_id nodes _ (has_key-put_self n.member_id n entries),
  node_by_id-has nodes _,
)

-- Edges whose nodes are all in the table
abbrev Known : Dict GroupTopologyNode → List GroupTopologyEdge → Type 0
Known table = All (λ e. has_key e.target_id table ≡ true)

Known-kept :
    (table : Dict GroupTopologyNode) (local : Str) (root : Bool) (p : GroupTopologyNode → Bool)
    (nodes : List GroupTopologyNode)
    → All (λ n. has_key n.member_id table ≡ true) nodes
    → Known table (map (edge_to local root) (keep p nodes))
unfolding keep edge_of
Known-kept table local root p [] h = tt
Known-kept table local root p (n ∷ nodes) h = elim (Bool-cases (p n)) [
  | inl e ↦ rw e (h.0, Known-kept table local root p nodes h.1)
  | inr e ↦ rw e (Known-kept table local root p nodes h.1)
]

edge_lines-length :
    (table : Dict GroupTopologyNode) (edges : List GroupTopologyEdge)
    → Known table edges
    → length (edge_lines table edges) ≡ length edges
unfolding edge_lines
edge_lines-length table [] h = refl
edge_lines-length table (e ∷ edges) h = elim (Option-cases (lookup e.target_id table)) [
  | inl missing ↦ absurd (cc (sym h.0 ∙ ap is_some {y = none} missing))
  | inr (node, found) ↦ rw (found, edge_lines) (ap suc (edge_lines-length table edges h.1))
]

edges_of-Known :
    (local : Str) (root : Bool) (nodes : List GroupTopologyNode)
    → Known (node_by_id nodes []) (edges_of local root nodes)
edges_of-Known local root nodes =
    if_rule (Known (node_by_id nodes [])) (is_empty local) [] _ (λ _. tt)
      (λ _.
        Known-kept (node_by_id nodes []) local root (λ n. not n.is_local) nodes
          (node_by_id-has nodes []))

-- The rendering as text of a snapshot that was built has one line for each edge: none is skipped for a
-- missing node.
pub render-edge_lines :
    (u : CaseMapping) (state : GroupState) (local_member_id : Str) (live_by_member : Dict Bool)
    (peer_state_by_member : Dict Str) (group_ready await_root : Bool) (blindbox_ready : Dict Bool)
    (status reason : Dict Str)
    → let s =
        build_observed_group_topology u state local_member_id live_by_member peer_state_by_member
          group_ready await_root blindbox_ready status reason in
      length (edge_lines (node_by_id s.nodes []) s.edges) ≡ length s.edges
render-edge_lines u state local_member_id live states group_ready await_root blindbox_ready status
      reason =
    let s =
      build_observed_group_topology u state local_member_id live states group_ready await_root
        blindbox_ready status reason in
    let e =
      (build_topology-edges u state local_member_id live states group_ready await_root
        blindbox_ready status reason).1 in
    edge_lines-length (node_by_id s.nodes []) s.edges (
      subst (Known (node_by_id s.nodes [])) (sym e)
        (edges_of-Known (normalize_member_id u local_member_id) await_root s.nodes))
