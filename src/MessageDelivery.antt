-- ===== src/MessageDelivery.antt =====
-- i2pchat/protocol/message_delivery.py. The states are the texts that a history keeps.
pub mod Restart
use i2pchat.Prelude.{
  ◌≡◌, ◌≢◌, refl, Bool, true, false, ◌&&◌, ◌||◌, Option, none, some, List, [], ◌∷◌, if◌then◌else◌,
  is_empty, get_or, All, arith, Bool-cases, inl, inr, if_rule, some-injective, subst, sym, ap, ◌∙◌,
  ℕ, ◌<◌, map, all, ltb,
}
use i2pchat.Text.{Str, codes, str_eq, str_eq_iff, str_in}
use i2pchat.Text.Strip.{strip, lstrip, rstrip, is_space}
use i2pchat.Text.Case.{CaseMapping, ascii_lower}
use i2pchat.Dict.{Dict, lookup}

abbrev pub sending : Str
sending = codes "sending"

abbrev pub queued : Str
queued = codes "queued"

abbrev pub delivered : Str
delivered = codes "delivered"

abbrev pub failed : Str
failed = codes "failed"

pub record DeliveryLifecycle : Type 0 where
  pub state : Str
  pub route : Str
  pub reason : Str
  pub hint : Str
  pub retryable : Bool

abbrev accepted_as : Str → Str → Str → Str → DeliveryLifecycle
accepted_as state route reason hint = record {
  state = state;
  route = route;
  reason = reason;
  hint = hint;
  retryable = false;
}

unfoldable pub delivery_lifecycle_from_send_result : Str → Bool → Str → Str → DeliveryLifecycle
delivery_lifecycle_from_send_result route accepted reason hint =
    if accepted && str_eq route (codes "offline-queued")
    then accepted_as queued route reason hint
    else if accepted
    then accepted_as sending route reason hint
    else record {
      state = failed;
      route = if is_empty route then codes "blocked" else route;
      reason = reason;
      hint = hint;
      retryable = str_eq reason (codes "send-failed");
    }

abbrev pub labels : Dict Str
labels =
    (sending, codes "Sending")
    ∷ (queued, codes "Queued")
    ∷ (delivered, codes "Delivered")
    ∷ (failed, codes "Failed")
    ∷ []

-- A state that a history still holds after a restart: a message is no longer being sent.
pub data IsSettled : Str → Type 0 where
  is_queued : IsSettled queued
  is_delivered : IsSettled delivered
  is_failed : IsSettled failed

module _ (u : CaseMapping) where
  -- `(state or "").strip().lower()`
  unfoldable pub normalized_state : Option Str → Str
  normalized_state state = u.lower (strip (get_or [] state))

  unfoldable pub delivery_state_label : Option Str → Str
  delivery_state_label state = get_or [] (lookup (normalized_state state) labels)

  unfoldable pub normalize_loaded_delivery_state : Option Str → Option Str
  normalize_loaded_delivery_state state =
      let normalized = normalized_state state in
      if is_empty normalized
      then none
      else if str_eq normalized sending
      then some failed
      else if str_in normalized (queued ∷ delivered ∷ failed ∷ [])
      then some normalized
      else none
