-- ===== src/Groups/Models/Members.antt =====
-- The members of a group state: canonical, not blank, and none twice.
use i2pchat.Prelude.{
  ◌≡◌, refl, ap, true, false, ◌||◌, [], ◌∷◌, List, arith, is_empty, All, Bool-cases, inl, inr,
}
use i2pchat.Text.{Str, str_eq_iff, str_eq_refl, str_in, Distinct}
use i2pchat.Text.Case.{CaseMapping}
use i2pchat.PeerAddress.{normalize_member_id}
use i2pchat.PeerAddress.Canonical.{normalize_member_id_idem}
use i2pchat.Groups.Models.{distinct_members}

abbrev Unseen : List Str → List Str → Type 0
Unseen seen = All (λ s. str_in s seen ≡ false)

add_seen :
    (s : Str) (seen members : List Str)
    → str_in s members ≡ false
    → Unseen seen members
    → Unseen (s ∷ seen) members
unfolding str_in
add_seen s seen [] e h = tt
add_seen s seen (x ∷ members) e h =
    (ground (arith, str_eq_iff s x, str_eq_iff x s), add_seen s seen members (ground arith) h.1)

none_seen : (members : List Str) → Unseen [] members
unfolding str_in
none_seen [] = tt
none_seen (s ∷ members) = (refl, none_seen members)

module _ (u : CaseMapping) where
  -- A member as a group state keeps it
  abbrev pub IsMember : Str → Type 0
  IsMember s = (normalize_member_id u s ≡ s) × (is_empty s ≡ false)

  distinct_members-IsMember : (seen raw : List Str) → All IsMember (distinct_members u seen raw)
  unfolding distinct_members
  distinct_members-IsMember seen [] = tt
  distinct_members-IsMember seen (r ∷ raw) =
      let id = normalize_member_id u r in
      elim (Bool-cases (is_empty id || str_in id seen)) [
        | inl e ↦ rw e (distinct_members-IsMember seen raw)
        | inr e ↦ rw e (
          (normalize_member_id_idem u r, ground arith),
          distinct_members-IsMember (id ∷ seen) raw,
        )
      ]

  -- What was seen is not kept again.
  fresh :
      (s : Str) (seen raw : List Str)
      → str_in s seen ≡ true
      → str_in s (distinct_members u seen raw) ≡ false
  unfolding distinct_members str_in
  fresh s seen [] h = refl
  fresh s seen (r ∷ raw) h =
      let id = normalize_member_id u r in
      elim (Bool-cases (is_empty id || str_in id seen)) [
        | inl e ↦ rw e (fresh s seen raw h)
        | inr e ↦ rw e (ground (arith, str_eq_iff id s, fresh s (id ∷ seen) raw))
      ]

  distinct_members-Distinct : (seen raw : List Str) → Distinct (distinct_members u seen raw)
  unfolding distinct_members str_in
  distinct_members-Distinct seen [] = tt
  distinct_members-Distinct seen (r ∷ raw) =
      let id = normalize_member_id u r in
      elim (Bool-cases (is_empty id || str_in id seen)) [
        | inl e ↦ rw e (distinct_members-Distinct seen raw)
        | inr e ↦ rw e (
          fresh id (id ∷ seen) raw (ground (arith, str_eq_refl id)),
          distinct_members-Distinct (id ∷ seen) raw,
        )
      ]

  -- Building a state from its own members changes nothing.
  again :
      (seen members : List Str)
      → All IsMember members
      → Distinct members
      → All (λ s. str_in s seen ≡ false) members
      → distinct_members u seen members ≡ members
  unfolding distinct_members
  again seen [] ok d f = refl
  again seen (s ∷ members) ok d f =
      rw (ok.0.0, ok.0.1, f.0)
        (ap (◌∷◌ s) (again (s ∷ seen) members ok.1 d.1 (add_seen s seen members d.0 f.1)))

  -- The members of a group state are canonical, not blank and distinct, and a state built from them
  -- has the same members.
  pub members_canonical :
      (raw : List Str)
      → let members = distinct_members u [] raw in
        All IsMember members × Distinct members × (distinct_members u [] members ≡ members)
  members_canonical raw =
      let members = distinct_members u [] raw in
      let ok = distinct_members-IsMember [] raw in
      let d = distinct_members-Distinct [] raw in (ok, d, again [] members ok d (none_seen members))
