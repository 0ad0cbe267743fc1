-- ===== src/Groups/Topology/Render.antt =====
-- `render_group_topology_ascii` and `render_group_topology_mermaid` of i2pchat/groups/topology.py: the lines
-- that they join with line ends.
pub mod Lines
use i2pchat.Prelude.{
  ℕ, Bool, true, false, ◌&&◌, ◌||◌, not, Option, none, some, List, [], ◌∷◌, ◌++◌, leb, ◌==◌,
  if◌then◌else◌, is_empty, map,
}
use i2pchat.Text.{Str, codes, str_eq}
use i2pchat.Text.Case.{CaseMapping}
use i2pchat.Dict.{Dict, lookup, put}
use i2pchat.PeerAddress.{normalize_member_id}
use i2pchat.Groups.Topology.{
  GroupTopologyNode, GroupTopologyEdge, GroupTopologySnapshot, link_text, join, part_if,
}

-- `snapshot.title or snapshot.group_id`
unfoldable pub title_or : Option Str → Str → Str
title_or none group_id = group_id
title_or (some title) group_id = if is_empty title then group_id else title

-- `next((node for node in snapshot.nodes if node.is_local), None)`
unfoldable pub local_node : List GroupTopologyNode → Option GroupTopologyNode
local_node [] = none
local_node (node ∷ nodes) =
    let other = local_node nodes in if node.is_local then some node else other

-- The line of the local node, if there is one
unfoldable pub local_line : Option GroupTopologyNode → List Str
local_line none = []
local_line (some node) = (codes "Local: " ++ node.label) ∷ []

-- `{node.member_id: node for node in snapshot.nodes}`
unfoldable pub node_by_id : List GroupTopologyNode → Dict GroupTopologyNode → Dict GroupTopologyNode
node_by_id [] entries = entries
node_by_id (node ∷ nodes) entries = node_by_id nodes (put node.member_id node entries)

-- The line of an edge, with what its node shows
unfoldable pub edge_line : GroupTopologyEdge → GroupTopologyNode → Str
edge_line edge node =
    let state = link_text edge.state in
    let shown =
      not (is_empty node.peer_state)
      && not (str_eq node.peer_state (codes "disconnected") || str_eq node.peer_state state) in
    codes "- "
    ++ node.label
    ++ codes ": "
    ++ join (codes ", ") (
        state ∷ []
        ++ part_if shown (codes "peer=" ++ node.peer_state)
        ++ part_if node.blindbox_ready (codes "blindbox-ready")
        ++ part_if (not (is_empty node.last_delivery_status))
            (codes "last=" ++ node.last_delivery_status)
        ++ part_if (not (is_empty node.last_delivery_reason))
            (codes "reason=" ++ node.last_delivery_reason))

-- The loop over the edges: one whose node is missing has no line.
unfoldable pub edge_lines : Dict GroupTopologyNode → List GroupTopologyEdge → List Str
edge_lines nodes [] = []
edge_lines nodes (edge ∷ edges) =
    let rest = edge_lines nodes edges in
    elim (lookup edge.target_id nodes) [ none ↦ rest | some node ↦ edge_line edge node ∷ rest ]

-- The lines on the group as a whole
unfoldable pub head_lines : GroupTopologySnapshot → List Str
head_lines s =
    (codes "Observed group topology: "
        ++ title_or s.title s.group_id
        ++ codes " ["
        ++ s.group_id
        ++ codes "]")
      ∷ []
    ++ part_if s.observed_only (codes "Scope: local node view only")
    ++ (if s.group_blindbox_ready
        then codes "Group blindbox: ready" ∷ []
        else part_if s.await_group_root (codes "Group blindbox: await-root"))
    ++ local_line (local_node s.nodes)

unfoldable pub ascii_lines : GroupTopologySnapshot → List Str
ascii_lines s =
    head_lines s
    ++ (if is_empty s.edges
        then codes "No remote members in this group." ∷ []
        else edge_lines (node_by_id s.nodes []) s.edges)

unfoldable pub render_group_topology_ascii : GroupTopologySnapshot → Str
render_group_topology_ascii s = join (10 ∷ []) (ascii_lines s)

-- `[a-zA-Z0-9_]`, and `_` for any other character
unfoldable pub node_id_char : ℕ → ℕ
node_id_char c =
    if (leb b'a' c && leb c b'z')
      || (leb b'A' c && leb c b'Z')
      || (leb b'0' c && leb c b'9')
      || (c == b'_')
    then c
    else b'_'

module _ (u : CaseMapping) where
  -- `_mermaid_node_id`
  unfoldable pub mermaid_node_id : Str → Str
  mermaid_node_id member_id =
      let token = map node_id_char (normalize_member_id u member_id) in
      if is_empty token then codes "node" else token

-- A backslash and an `n`
abbrev pub soft_break : Str
soft_break = 92 ∷ b'n' ∷ []

-- `_mermaid_node_label`
unfoldable pub mermaid_node_label : GroupTopologyNode → Str
mermaid_node_label node =
    let shown =
      not (is_empty node.peer_state) && not (str_eq node.peer_state (codes "disconnected")) in
    let status_bits =
      (if node.live_ready then codes "live" ∷ [] else part_if shown node.peer_state)
      ++ part_if node.blindbox_ready (codes "blindbox")
      ++ part_if (not (is_empty node.last_delivery_status))
          (codes "last=" ++ node.last_delivery_status) in
    if is_empty status_bits
    then node.label
    else node.label ++ soft_break ++ join soft_break status_bits

abbrev pub quote : Str
quote = 34 ∷ []

module _ (u : CaseMapping) where
  unfoldable pub mermaid_node_line : GroupTopologyNode → Str
  mermaid_node_line node =
      codes "  "
      ++ mermaid_node_id u node.member_id
      ++ codes "["
      ++ quote
      ++ mermaid_node_label node
      ++ quote
      ++ codes "]"

  unfoldable pub mermaid_edge_line : GroupTopologyEdge → Str
  mermaid_edge_line edge =
      codes "  "
      ++ mermaid_node_id u edge.source_id
      ++ codes " -->|"
      ++ quote
      ++ edge.label
      ++ quote
      ++ codes "| "
      ++ mermaid_node_id u edge.target_id

  unfoldable pub mermaid_lines : GroupTopologySnapshot → List Str
  mermaid_lines s =
      let state = λ (text : Str).
        codes "  group_blindbox_state["
        ++ quote
        ++ codes "Group blindbox"
        ++ soft_break
        ++ text
        ++ quote
        ++ codes "]" in
      codes "graph TD" ∷ []
      ++ (if s.group_blindbox_ready
          then state (codes "ready") ∷ []
          else part_if s.await_group_root (state (codes "await-root")))
      ++ map mermaid_node_line s.nodes
      ++ map mermaid_edge_line s.edges

  unfoldable pub render_group_topology_mermaid : GroupTopologySnapshot → Str
  render_group_topology_mermaid s = join (10 ∷ []) (mermaid_lines s)
