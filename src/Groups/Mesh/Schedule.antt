-- ===== src/Groups/Mesh/Schedule.antt =====
-- What a tick of the mesh schedules.
use i2pchat.Prelude.{
  ℕ, zero, suc, ◌≤◌, ◌≡◌, refl, ◌∙◌, ap, min, Bool, true, false, Option, List, [], ◌∷◌, ◌++◌, arith,
  length, take, drop, map, All, length-take, keep, take-drop, Bool-cases, inl, inr, ℤ, pos, negsuc,
}
use i2pchat.Text.{Str}
use i2pchat.Text.Case.{CaseMapping}
use i2pchat.Text.Order.{str_leb-total, str_leb_trans}
use i2pchat.Sorting.{sort, length-sort, count, count-sort, Sorted, sort-Sorted}
use i2pchat.Groups.Models.{GroupState}
use i2pchat.Groups.Mesh.{
  GroupMeshPeerSnapshot, Environ, Candidate, clamp, env_int, max_scheduled_per_tick, enabled,
  connect_offline_ready_peers, iter_group_peers, is_due, candidate_of, no_later, candidates,
  collect_due_peer_intros,
}

no_later-total : (a b : Candidate) → no_later a b ≡ false → no_later b a ≡ true
unfolding no_later
no_later-total a b h = ground (arith, str_leb-total a.peer b.peer)

no_later_trans :
    (a b c : Candidate) → no_later a b ≡ true → no_later b c ≡ true → no_later a c ≡ true
unfolding no_later
no_later_trans a b c h k = ground (arith, str_leb_trans a.peer b.peer c.peer)

-- Each of the first `n` of a sorted list against each of the rest
abbrev pub Before : ℕ → List Candidate → Type 0
Before n cs = All (λ a. All (λ b. no_later a b ≡ true) (drop n cs)) (take n cs)

All-drop : (P : Candidate → Type 0) (n : ℕ) (cs : List Candidate) → All P cs → All P (drop n cs)
unfolding drop
All-drop P zero cs h = h
All-drop P (suc n) [] h = tt
All-drop P (suc n) (c ∷ cs) h = All-drop P n cs h.1

Sorted-Before : (n : ℕ) (cs : List Candidate) → Sorted no_later cs → Before n cs
unfolding take drop
Sorted-Before zero cs s = tt
Sorted-Before (suc n) [] s = tt
Sorted-Before (suc n) (c ∷ cs) s =
    (All-drop (λ b. no_later c b ≡ true) n cs s.0, Sorted-Before n cs s.1)

max_scheduled-range :
    (environ : Environ)
    → (1 ≤ max_scheduled_per_tick environ) × (max_scheduled_per_tick environ ≤ 64)
unfolding max_scheduled_per_tick env_int clamp
max_scheduled-range environ = in_range _
  where
    in_range : (z : ℤ) → (1 ≤ clamp 1 64 z) × (clamp 1 64 z ≤ 64)
    in_range (pos n) = (omega arith, omega arith)
    in_range (negsuc n) = (omega arith, omega arith)

candidates-due :
    (build : Str → GroupMeshPeerSnapshot) (offline : Bool) (now : ℕ) (peers : List Str)
    → candidates build offline now peers
      ≡ map candidate_of (keep (is_due offline now) (map build peers))
unfolding candidates keep
candidates-due build offline now [] = refl
candidates-due build offline now (peer_id ∷ rest) =
    elim (Bool-cases (is_due offline now (build peer_id))) [
      | inl e ↦
          rw e (ap (◌∷◌ (candidate_of (build peer_id))) (candidates-due build offline now rest))
      | inr e ↦ rw e (candidates-due build offline now rest)
    ]

module _ (u : CaseMapping) (environ : Environ) (build : Str → GroupMeshPeerSnapshot) where
  -- The candidates of a tick: one for each peer of the groups whose snapshot is due
  abbrev pub due : ℕ → Option Str → List GroupState → List Candidate
  due now local states = map candidate_of (
      keep (is_due (connect_offline_ready_peers u environ) now)
        (map build (iter_group_peers u local states)))

  -- Where the mesh is enabled, the due peers split into those that are chosen and those that are left: the
  -- chosen are as many as the limit of a tick allows, the limit is from 1 to 64, and no one that is left
  -- comes before a chosen one by priority, time of retry and identifier.
  pub collect_due-chosen :
      (now : ℕ) (local : Option Str) (states : List GroupState)
      → enabled u environ ≡ true
      → (chosen left : List Candidate) × (collect_due_peer_intros u environ build now local states
          ≡ map (λ c. c.peer) chosen)
        × (length chosen ≡ min (max_scheduled_per_tick environ) (length (due now local states)))
        × (1 ≤ max_scheduled_per_tick environ)
        × (max_scheduled_per_tick environ ≤ 64)
        × ((q : Candidate → Bool) → count q (chosen ++ left) ≡ count q (due now local states))
        × All (λ a. All (λ b. no_later a b ≡ true) left) chosen
  unfolding collect_due_peer_intros
  collect_due-chosen now local states on =
      let cs =
        candidates build (connect_offline_ready_peers u environ) now
          (iter_group_peers u local states) in
      let same : cs ≡ due now local states =
        candidates-due build _ now (iter_group_peers u local states) in
      let ranked = sort no_later cs in
      let n = max_scheduled_per_tick environ in
      (
        take n ranked,
        drop n ranked,
        rw on refl,
        length-take n ranked ∙ ap (min n) (length-sort no_later cs ∙ ap length same),
        (max_scheduled-range environ).0,
        (max_scheduled-range environ).1,
        λ q. ap (count q) (take-drop n ranked) ∙ count-sort no_later q cs ∙ ap (count q) same,
        Sorted-Before n ranked (sort-Sorted no_later no_later-total no_later_trans cs),
      )
