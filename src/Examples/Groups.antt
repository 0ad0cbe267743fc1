-- ===== src/Examples/Groups.antt =====
-- A group of three, its messages, its mesh and its topology.
use i2pchat.Prelude.{
  ◌≤◌, ◌≡◌, ◌≢◌, ◌↔◌, refl, min, Bool, true, false, none, some, List, [], ◌∷◌, ◌++◌, All, length,
  map, is_empty, if◌then◌else◌,
}
use i2pchat.Text.{Str, codes, str_eq, str_in, Distinct, before_suffix?}
use i2pchat.Text.Strip.{strip, is_space}
use i2pchat.Text.Case.{ascii, ascii_lower}
use i2pchat.Dict.{Dict, keys}
use i2pchat.PeerAddress.{normalize_member_id, normalize_peer_address, host_of, is_host}
use i2pchat.Session.State.{Clock, SessionManager, init}
use i2pchat.Session.Policy.{select_outbound_policy, is_live_path_alive}
use i2pchat.Sorting.{count}
use i2pchat.Groups.Models.{
  GroupState, group_text, GroupRecipientDeliveryMetadata, GroupEnvelope, GroupSendResult,
  delivered_live, queued_offline, distinct_members,
}
use i2pchat.Groups.Models.Members.{IsMember, members_canonical}
use i2pchat.Groups.Manager.{Sender, Sequences, deliver_to_member, recipient_ids, tries_live}
use i2pchat.Groups.Manager.Sending.{send_payload}
use i2pchat.Groups.Manager.Recipients.{recipient_ids_iff}
use i2pchat.Groups.Manager.Delivery.{status_of, is_accepted, delivered_live_iff, route_kept}
use i2pchat.Groups.Manager.Sequence.{
  SeqCall, prime, send, issued, last_seq, Ascending, issued-Ascending,
}
use i2pchat.Groups.Manager.FanOut.{Answers, send_payload-keys}
use i2pchat.Groups.Mesh.{
  GroupMeshPeerSnapshot, Environ, Candidate, no_later, max_scheduled_per_tick,
  collect_due_peer_intros, iter_group_peers, enabled,
}
use i2pchat.Groups.Mesh.Schedule.{due, collect_due-chosen}
use i2pchat.Groups.Mesh.Peers.{ArePeers, IsCovered, iter_group_peers-exact}
use i2pchat.Groups.Topology.{build_observed_group_topology}
use i2pchat.Groups.Topology.Render.{node_by_id, edge_lines}
use i2pchat.Groups.Topology.Render.Lines.{render-edge_lines}

abbrev pub team : GroupState
team = record {
  group_id = codes "g1";
  epoch = 1;
  members = codes "alice" ∷ codes "bob" ∷ codes "carol" ∷ [];
  title = none;
  created_at = 0;
  updated_at = 0;
}

abbrev pub metadata : GroupRecipientDeliveryMetadata
metadata = record { recipient_id = codes "bob"; delivery_id = codes "m:bob"; ciphertext = none }

abbrev envelope : GroupEnvelope Str
envelope = record {
  group_id = codes "g1";
  epoch = 1;
  msg_id = codes "m";
  sender_id = codes "alice";
  group_seq = 1;
  content_type = group_text;
  payload = some (codes "hi");
  ciphertext = none;
  created_at = 0;
  member_metadata = (codes "bob", metadata) ∷ [];
}

-- A sender that takes everything
abbrev accepting : Sender Str
accepting id e md m = some (record { accepted = true; reason = []; transport_message_id = none }, m)

abbrev manager : SessionManager
manager = init 0 true false false

abbrev clock : Clock
clock i = i

takes_each : (rs : List Str) → All (Answers accepting) rs
takes_each [] = tt
takes_each (r ∷ rs) = (λ e md m. refl, takes_each rs)

send_payload-keys_example :
    (r : GroupSendResult Str) × (seqs' : Sequences) × (m' : SessionManager) × (send_payload ascii
        accepting accepting
        (λ i. clock)
        (codes "m")
        5
        team
        (codes "alice")
        (codes "hi")
        group_text
        (codes "auto")
        []
        manager
      ≡ some (r, seqs', m'))
    × (keys r.delivery_results ≡ recipient_ids ascii team (codes "alice"))
    × (keys r.envelope.member_metadata ≡ recipient_ids ascii team (codes "alice"))
unfolding str_in str_eq
send_payload-keys_example =
    send_payload-keys ascii accepting accepting (λ i. clock) (codes "m") 5 team (codes "alice")
      (codes "hi") group_text (codes "auto") [] manager (refl, (refl, (refl, tt)))
      (takes_each (recipient_ids ascii team (codes "alice")))
      (takes_each (recipient_ids ascii team (codes "alice")))

delivered_live_iff_example :
    let (policy, m1) =
      select_outbound_policy ascii 0 (codes "auto") none none (some (codes "bob")) manager in
    let (ready, m2) = is_live_path_alive ascii 1 none none (some (codes "bob")) m1 in
    (status_of (
        deliver_to_member ascii accepting accepting clock
          (codes "bob")
          envelope
          metadata
          (codes "auto")
          manager)
      ≡ some delivered_live)
    ↔ ((tries_live policy ≡ true)
        × (ready ≡ true)
        × (is_accepted (accepting (codes "bob") envelope metadata m2) ≡ true))
delivered_live_iff_example =
    delivered_live_iff ascii accepting accepting clock (codes "bob") envelope metadata
      (codes "auto") manager

route_kept_example :
    let asked =
      ascii.lower (strip (if is_empty (codes "live") then codes "auto" else codes "live")) in
    let status = status_of (
      deliver_to_member ascii accepting accepting clock
        (codes "bob")
        envelope
        metadata
        (codes "live")
        manager) in
    (asked ≡ codes "live" → status ≢ some queued_offline)
    × (asked ≡ codes "offline" → status ≢ some delivered_live)
route_kept_example =
    route_kept ascii accepting accepting clock (codes "bob") envelope metadata (codes "live")
      manager

abbrev seq_calls : List SeqCall
seq_calls = send (codes "g1") ∷ prime (codes "g1") 9 ∷ send (codes "g2") ∷ send (codes "g1") ∷ []

issued-Ascending_example : Ascending (last_seq (codes "g1") []) (issued (codes "g1") seq_calls [])
issued-Ascending_example = issued-Ascending (codes "g1") seq_calls []

abbrev raw_members : List Str
raw_members = codes " Alice" ∷ codes "alice" ∷ [] ∷ codes "Bob" ∷ []

members_canonical_example :
    let members = distinct_members ascii [] raw_members in
    All (IsMember ascii) members × Distinct members × (distinct_members ascii [] members ≡ members)
members_canonical_example = members_canonical ascii raw_members

-- No variable is set.
abbrev environ : Environ
environ name = none

abbrev snapshot : Str → GroupMeshPeerSnapshot
snapshot peer = record {
  peer_id = peer;
  peer_state = codes "failed";
  live_ready = false;
  active_session = false;
  blindbox_ready = false;
  next_retry_mono = 0;
}

collect_due-chosen_example :
    (chosen left : List Candidate) × (collect_due_peer_intros ascii environ snapshot 10
        (some (codes "alice"))
        (team ∷ [])
      ≡ map (λ c. c.peer) chosen)
    × (length chosen
        ≡ min
            (max_scheduled_per_tick environ)
            (length (due ascii environ snapshot 10 (some (codes "alice")) (team ∷ []))))
    × (1 ≤ max_scheduled_per_tick environ)
    × (max_scheduled_per_tick environ ≤ 64)
    × ((q : Candidate → Bool)
        → count q (chosen ++ left)
          ≡ count q (due ascii environ snapshot 10 (some (codes "alice")) (team ∷ [])))
    × All (λ a. All (λ b. no_later a b ≡ true) left) chosen
unfolding enabled i2pchat.Groups.Mesh.env_truthy str_in str_eq strip is_space ascii_lower
collect_due-chosen_example =
    collect_due-chosen ascii environ snapshot 10 (some (codes "alice")) (team ∷ []) refl

iter_group_peers-exact_example :
    let peers = iter_group_peers ascii (some (codes "alice")) (team ∷ []) in
    let id = normalize_member_id ascii (codes "alice") in
    ArePeers ascii id peers × All (λ g. All (IsCovered ascii id peers) g.members) (team ∷ [])
unfolding normalize_member_id strip is_space normalize_peer_address host_of ascii_lower is_host
    before_suffix? str_eq
iter_group_peers-exact_example = iter_group_peers-exact ascii (codes "alice") (team ∷ []) refl

abbrev states : Dict Str
states = (codes "bob", codes "stale") ∷ []

render-edge_lines_example :
    let s =
      build_observed_group_topology ascii team (codes "alice") [] states false true [] [] [] in
    length (edge_lines (node_by_id s.nodes []) s.edges) ≡ length s.edges
render-edge_lines_example =
    render-edge_lines ascii team (codes "alice") [] states false true [] [] []

recipient_ids_iff_example :
    (str_in (codes "bob") (recipient_ids ascii team (codes "alice")) ≡ true) ↔ (
      (str_in (codes "bob") team.members ≡ true)
      × (is_empty (codes "bob") ≡ false)
      × (normalize_member_id ascii (codes "bob") ≢ normalize_member_id ascii (codes "alice")))
recipient_ids_iff_example = recipient_ids_iff ascii team (codes "alice") (codes "bob")
