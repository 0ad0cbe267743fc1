-- ===== src/Groups/Manager/Recipients.antt =====
-- Who gets a group message.
use i2pchat.Prelude.{
  ◌≡◌, ◌≢◌, ◌↔◌, ◌∙◌, ap, Bool, true, false, ◌&&◌, not, List, [], ◌∷◌, arith, is_empty, keep,
  Bool-cases, inl, inr,
}
use i2pchat.Text.{Str, str_eq, str_eq_iff, str_in}
use i2pchat.Text.Case.{CaseMapping}
use i2pchat.PeerAddress.{normalize_member_id, same_i2p_destination}
use i2pchat.PeerAddress.Same.{same_i2p_destination_iff}
use i2pchat.Groups.Models.{GroupState}
use i2pchat.Groups.Manager.{recipient_ids}

str_in-keep : (p : Str → Bool) (s : Str) (xs : List Str) → str_in s (keep p xs) ≡ p s && str_in s xs
unfolding str_in keep
str_in-keep p s [] = ground arith
str_in-keep p s (x ∷ xs) = elim (Bool-cases (str_eq x s)) [
  | inl e ↦ ground (arith, ap p ((str_eq_iff x s).0 e), str_in-keep p s xs)
  | inr e ↦ ground (arith, str_in-keep p s xs)
]

module _ (u : CaseMapping) where
  -- A message to a group goes exactly to the members that are not blank and have another canonical identifier
  -- than the sender.
  pub recipient_ids_iff :
      (state : GroupState) (sender_id r : Str)
      → (str_in r (recipient_ids u state sender_id) ≡ true) ↔ (
          (str_in r state.members ≡ true)
          × (is_empty r ≡ false)
          × (normalize_member_id u r ≢ normalize_member_id u sender_id))
  unfolding recipient_ids
  recipient_ids_iff state sender_id r =
      let kept =
        str_in-keep
          (λ member. not (is_empty member) && not (same_i2p_destination u member sender_id)) r
          state.members in
      let same = same_i2p_destination_iff u r sender_id in
      (
        λ h. (
          ground (arith, kept),
          ground (arith, kept),
          λ e. absurd (ground (arith, kept, same.1 e)),
        ),
        λ h. kept ∙ elim (Bool-cases (same_i2p_destination u r sender_id)) [
          | inl e ↦ absurd (h.2 (same.0 e))
          | inr e ↦ rw (e, h.0, h.1)
        ],
      )
