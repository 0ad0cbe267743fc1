-- ===== src/Groups/Topology/Edges.antt =====
-- The nodes and edges of a topology snapshot.
use i2pchat.Prelude.{
  ◌≡◌, refl, ◌∙◌, sym, ap, Bool, true, false, ◌||◌, not, List, [], ◌∷◌, ◌++◌, if◌then◌else◌,
  is_empty, map, keep, append-nil, append_assoc, map-append, keep-append, Bool-cases, inl, inr,
  if_rule,
}
use i2pchat.Text.{Str}
use i2pchat.Text.Case.{CaseMapping}
use i2pchat.Dict.{Dict}
use i2pchat.PeerAddress.{normalize_member_id}
use i2pchat.Groups.Models.{GroupState}
use i2pchat.Groups.Topology.{
  GroupTopologyNode, GroupTopologyEdge, Observed, observe, node_of, edge_of, link_state_for_member,
  edge_label, add_members, build_observed_group_topology,
}

-- The members that are not blank, in canonical form
abbrev pub member_ids : CaseMapping → List Str → List Str
member_ids u members = keep (λ id. not (is_empty id)) (map (normalize_member_id u) members)

-- The edge from the local member to a node, with what the node shows
abbrev pub edge_to : Str → Bool → GroupTopologyNode → GroupTopologyEdge
edge_to local root n =
    let state = link_state_for_member n.peer_state n.live_ready n.blindbox_ready root in
    record {
      source_id = local;
      target_id = n.member_id;
      state = state;
      label = edge_label state n.blindbox_ready n.last_delivery_status;
      peer_state = n.peer_state;
      live_ready = n.live_ready;
      blindbox_ready = n.blindbox_ready;
      last_delivery_status = n.last_delivery_status;
      last_delivery_reason = n.last_delivery_reason;
    }

edge_of-to :
    (local : Str) (root : Bool) (n : GroupTopologyNode)
    → edge_of local root n ≡ edge_to local root n
unfolding edge_of
edge_of-to local root n = refl

-- An edge for each node that is not the local one, where there is a local one
abbrev pub edges_of : Str → Bool → List GroupTopologyNode → List GroupTopologyEdge
edges_of local root nodes =
    if is_empty local then [] else map (edge_to local root) (keep (λ n. not n.is_local) nodes)

module _ (u : CaseMapping) (o : Observed) (local : Str) (root : Bool) where
  abbrev pub nodes_of : List Str → List GroupTopologyNode
  nodes_of members = map (node_of u o local) (member_ids u members)

  -- One turn: what it appends to the two lists
  abbrev new_nodes : Str → List GroupTopologyNode
  new_nodes id = if is_empty id then [] else node_of u o local id ∷ []

  nodes-cons :
      (m : Str) (ms : List Str)
      → nodes_of (m ∷ ms) ≡ new_nodes (normalize_member_id u m) ++ nodes_of ms
  unfolding keep
  nodes-cons m ms = elim (Bool-cases (is_empty (normalize_member_id u m))) [
    | inl e ↦ rw e
    | inr e ↦ rw e
  ]

  edges-append :
      (xs ys : List GroupTopologyNode)
      → edges_of local root (xs ++ ys) ≡ edges_of local root xs ++ edges_of local root ys
  edges-append xs ys = elim (Bool-cases (is_empty local)) [
    | inl e ↦ rw e
    | inr e ↦ rw e (
        ap (map (edge_to local root)) (keep-append (λ n. not n.is_local) xs ys)
        ∙ map-append (edge_to local root) (keep (λ n. not n.is_local) xs)
            (keep (λ n. not n.is_local) ys))
  ]

  new_node-append :
      (blank : Bool) (x : GroupTopologyNode) (nodes : List GroupTopologyNode)
      → (if blank then nodes else nodes ++ x ∷ []) ≡ nodes ++ (if blank then [] else x ∷ [])
  new_node-append true x nodes = sym (append-nil nodes)
  new_node-append false x nodes = refl

  absent : (edges : List GroupTopologyEdge) → edges ≡ edges ++ edges_of local root []
  unfolding keep
  absent edges =
      sym (append-nil edges)
      ∙ if_rule (λ l. edges ++ [] ≡ edges ++ l) (is_empty local) [] [] (λ _. refl) (λ _. refl)

  new_edge-append :
      (blank : Bool) (x : GroupTopologyNode) (edges : List GroupTopologyEdge)
      → (if blank || x.is_local || is_empty local
          then edges
          else edges ++ edge_of local root x ∷ [])
        ≡ edges ++ edges_of local root (if blank then [] else x ∷ [])
  unfolding keep edge_of
  new_edge-append true x edges = absent edges
  new_edge-append false x edges = elim (Bool-cases x.is_local) [
    | inl l ↦ rw l (absent edges)
    | inr l ↦ elim (Bool-cases (is_empty local)) [
      | inl e ↦ rw (l, e) (sym (append-nil edges))
      | inr e ↦ rw (l, e) refl
    ]
  ]

  add_members-exact :
      (ms : List Str) (nodes : List GroupTopologyNode) (edges : List GroupTopologyEdge)
      → add_members u o local root ms nodes edges
        ≡ (nodes ++ nodes_of ms, edges ++ edges_of local root (nodes_of ms))
  unfolding add_members keep
  add_members-exact [] nodes edges = λ i. (sym (append-nil nodes) i, absent edges i)
  add_members-exact (m ∷ ms) nodes edges =
      let id = normalize_member_id u m in
      let node = node_of u o local id in
      (λ i.
        add_members u o local root ms (new_node-append (is_empty id) node nodes i)
          (new_edge-append (is_empty id) node edges i))
      ∙ add_members-exact ms _ _
      ∙ (λ i. (
        (append_assoc nodes (new_nodes id) (nodes_of ms)
              ∙ ap (λ l. nodes ++ l) (sym (nodes-cons m ms)))
            i,
        (append_assoc edges (edges_of local root (new_nodes id)) (edges_of local root (nodes_of ms))
              ∙ ap (λ l. edges ++ l)
                  (sym (edges-append (new_nodes id) (nodes_of ms))
                    ∙ ap (edges_of local root) (sym (nodes-cons m ms))))
            i,
      ))

pub build_topology-edges :
    (u : CaseMapping) (state : GroupState) (local_member_id : Str) (live_by_member : Dict Bool)
    (peer_state_by_member : Dict Str) (group_ready await_root : Bool) (blindbox_ready : Dict Bool)
    (status reason : Dict Str)
    → let s =
        build_observed_group_topology u state local_member_id live_by_member peer_state_by_member
          group_ready await_root blindbox_ready status reason in
      let o = observe u live_by_member peer_state_by_member blindbox_ready status reason in
      (s.nodes
        ≡ map (node_of u o (normalize_member_id u local_member_id)) (member_ids u state.members))
      × (s.edges ≡ edges_of (normalize_member_id u local_member_id) await_root s.nodes)
unfolding build_observed_group_topology
build_topology-edges u state local_member_id live states group_ready await_root blindbox_ready
      status reason =
    let local = normalize_member_id u local_member_id in
    let o = observe u live states blindbox_ready status reason in
    let e = add_members-exact u o local await_root state.members [] [] in
    (ap (λ r. r.0) e, ap (λ r. r.1) e ∙ ap (edges_of local await_root) (sym (ap (λ r. r.0) e)))
