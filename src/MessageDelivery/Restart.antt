-- ===== src/MessageDelivery/Restart.antt =====
-- What a history says of a message after a restart.
use i2pchat.Prelude.{
  ◌≡◌, refl, Bool, true, false, ◌&&◌, Option, none, some, [], ◌∷◌, if◌then◌else◌, is_empty, All,
  arith, Bool-cases, inl, inr, if_rule, some-injective, subst, ◌<◌, all, ltb,
}
use i2pchat.Text.{Str, codes, str_eq, str_eq_iff, str_in}
use i2pchat.Text.Strip.{strip, lstrip, rstrip, is_space}
use i2pchat.Text.Case.{CaseMapping, ascii_lower}
use i2pchat.MessageDelivery.{
  sending, queued, delivered, failed, delivery_lifecycle_from_send_result, normalized_state,
  normalize_loaded_delivery_state, IsSettled, is_queued, is_delivered, is_failed,
}

all_ascii : (s : Str) → all (λ c. ltb c 128) s ≡ true → All (λ c. c < 128) s
unfolding all
all_ascii [] h = tt
all_ascii (c ∷ s) h = (ground arith, all_ascii s (ground arith))

module _ (u : CaseMapping) where
  settled : (s : Str) → str_in s (queued ∷ delivered ∷ failed ∷ []) ≡ true → IsSettled s
  unfolding str_in
  settled s h = elim (Bool-cases (str_eq queued s)) [
    | inl e ↦ subst IsSettled ((str_eq_iff queued s).0 e) is_queued
    | inr e ↦ elim (Bool-cases (str_eq delivered s)) [
      | inl f ↦ subst IsSettled ((str_eq_iff delivered s).0 f) is_delivered
      | inr f ↦ elim (Bool-cases (str_eq failed s)) [
        | inl g ↦ subst IsSettled ((str_eq_iff failed s).0 g) is_failed
        | inr g ↦ absurd (cc (rw (e, f, g) at h))
      ]
    ]
  ]

  kept :
      (state : Option Str) (s : Str)
      → normalize_loaded_delivery_state u state ≡ some s
      → IsSettled s
  unfolding normalize_loaded_delivery_state
  kept state s h =
      let normalized = normalized_state u state in
      if_rule (λ o. o ≡ some s → IsSettled s) (is_empty normalized) none
        (if str_eq normalized sending
          then some failed
          else if str_in normalized (queued ∷ delivered ∷ failed ∷ [])
          then some normalized
          else none)
        (λ _ e. absurd (cc e))
        (λ _.
          if_rule (λ o. o ≡ some s → IsSettled s) (str_eq normalized sending) (some failed)
            (if str_in normalized (queued ∷ delivered ∷ failed ∷ []) then some normalized else none)
            (λ _ e. subst IsSettled (some-injective e) is_failed)
            (λ _.
              if_rule (λ o. o ≡ some s → IsSettled s)
                (str_in normalized (queued ∷ delivered ∷ failed ∷ [])) (some normalized) none
                (λ listed e. subst IsSettled (some-injective e) (settled normalized listed))
                (λ _ e. absurd (cc e))))
        h

  normalized_settled : (s : Str) → IsSettled s → normalize_loaded_delivery_state u (some s) ≡ some s
  unfolding normalize_loaded_delivery_state normalized_state strip lstrip rstrip is_space
      ascii_lower all str_eq str_in
  normalized_settled s is_queued = rw (u.lower_ascii queued (all_ascii queued refl)) refl
  normalized_settled s is_delivered = rw (u.lower_ascii delivered (all_ascii delivered refl)) refl
  normalized_settled s is_failed = rw (u.lower_ascii failed (all_ascii failed refl)) refl

  normalized_sending : normalize_loaded_delivery_state u (some sending) ≡ some failed
  unfolding normalize_loaded_delivery_state normalized_state strip lstrip rstrip is_space
      ascii_lower str_eq str_in all
  normalized_sending = rw (u.lower_ascii sending (all_ascii sending refl)) refl

  -- A state that is read from a history and kept is queued, delivered or failed, and reading it again keeps it.
  pub normalize_loaded_delivery_state-IsSettled :
      (state : Option Str) (s : Str)
      → normalize_loaded_delivery_state u state ≡ some s
      → IsSettled s × (normalize_loaded_delivery_state u (some s) ≡ some s)
  normalize_loaded_delivery_state-IsSettled state s h =
      let settled_s = kept state s h in (settled_s, normalized_settled s settled_s)

  -- The state that a message has from the result of its send, before any acknowledgement, is read back after a
  -- restart as queued, if the send was accepted for the offline queue, and as failed for every other result,
  -- accepted for the live path or not.
  pub normalize_loaded-send_result :
      (route : Str) (accepted : Bool) (reason hint : Str)
      → normalize_loaded_delivery_state u
          (some (delivery_lifecycle_from_send_result route accepted reason hint).state)
        ≡ some (if accepted && str_eq route (codes "offline-queued") then queued else failed)
  unfolding delivery_lifecycle_from_send_result
  normalize_loaded-send_result route false reason hint = normalized_settled failed is_failed
  normalize_loaded-send_result route true reason hint =
      elim (Bool-cases (str_eq route (codes "offline-queued"))) [
        | inl e ↦ rw e (normalized_settled queued is_queued)
        | inr e ↦ rw e normalized_sending
      ]
