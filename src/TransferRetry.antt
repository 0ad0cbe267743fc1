-- ===== src/TransferRetry.antt =====
-- i2pchat/core/transfer_retry.py and i2pchat/core/send_retry_policy.py. A time is a number of microseconds.
use i2pchat.Prelude.{
  ℕ, suc, ◌*◌, ◌-◌, ◌^◌, ◌≤◌, ◌≡◌, refl, min, Bool, true, false, ◌&&◌, not, Option, none, some,
  List, [], ◌∷◌, ◌++◌, ltb, leb, if◌then◌else◌, get_or, arith, Bool-cases, inl, inr, ◌==◌, All,
  subst,
}
use i2pchat.Text.{Str, codes, str_eq, str_eq_iff, str_in}
use i2pchat.Text.Strip.{strip}
use i2pchat.Text.Case.{CaseMapping}
use i2pchat.Dict.{Dict, lookup}

abbrev pub retryable_reasons : List Str
retryable_reasons = codes "connection_lost" ∷ codes "timeout" ∷ codes "peer_busy" ∷ []

abbrev pub non_retryable_reasons : List Str
non_retryable_reasons =
    codes "peer_rejected"
    ∷ codes "file_not_found"
    ∷ codes "size_exceeded"
    ∷ codes "user_cancelled"
    ∷ []

pub record TransferRetryPolicy : Type 0 where
  pub max_retries : ℕ
  pub backoff_base : ℕ
  pub max_backoff : ℕ

-- `should_retry_transfer` for attempt `earlier + 1`: the attempts count from 1. `none` is the `OverflowError`
-- of `2.0 ** 1024`; a product that is infinite is above the limit of delays all the same.
unfoldable pub should_retry_transfer : ℕ → Str → TransferRetryPolicy → Option (Bool × ℕ)
should_retry_transfer earlier reason policy =
    if str_in reason non_retryable_reasons
    then some (false, 0)
    else if ltb policy.max_retries (suc earlier)
    then some (false, 0)
    else if not (str_in reason retryable_reasons)
    then some (false, 0)
    else if ltb 1024 (suc earlier)
    then none
    else some (true, min (policy.backoff_base * 2 ^ earlier) policy.max_backoff)

abbrev pub failure_messages : Dict Str
failure_messages =
    (codes "connection_lost", codes "Connection lost — will retry")
    ∷ (codes "timeout", codes "Transfer timed out — will retry")
    ∷ (codes "peer_busy", codes "Peer is busy — will retry shortly")
    ∷ (codes "peer_rejected", codes "Recipient declined the transfer")
    ∷ (codes "file_not_found", codes "File no longer exists on disk")
    ∷ (codes "size_exceeded", codes "File exceeds the maximum allowed size")
    ∷ (codes "user_cancelled", codes "Transfer cancelled")
    ∷ []

unfoldable pub transfer_failure_reason : Str → Str
transfer_failure_reason error =
    get_or (codes "Transfer failed: " ++ error) (lookup error failure_messages)

abbrev pub state_labels : Dict Str
state_labels =
    (codes "preparing", codes "Preparing")
    ∷ (codes "sending", codes "Sending")
    ∷ (codes "paused", codes "Paused")
    ∷ (codes "failed", codes "Failed")
    ∷ (codes "completed", codes "Completed")
    ∷ []

unfoldable pub transfer_state_label : CaseMapping → Option Str → Str
transfer_state_label u state = get_or [] (lookup (u.lower (strip (get_or [] state))) state_labels)

-- `transfer_timeout_exceeded`
unfoldable pub transfer_timeout_exceeded : ℕ → ℕ → ℕ → Bool
transfer_timeout_exceeded elapsed received timeout = leb timeout elapsed && (received == 0)

abbrev pub auto_connect_reasons : List Str
auto_connect_reasons =
    codes "blindbox-disabled"
    ∷ codes "blindbox-await-root"
    ∷ codes "blindbox-needs-boxes"
    ∷ codes "transient-profile"
    ∷ []

-- A start is never in the future of the clock that is read.
unfoldable pub should_start_auto_connect_retry : Str → Bool → ℕ → ℕ → ℕ → Bool
should_start_auto_connect_retry reason has_running_task now last_started cooldown =
    if not (str_in reason auto_connect_reasons)
    then false
    else if has_running_task
    then false
    else leb cooldown (now - last_started)

-- A text of one list that shares none with another
apart :
    (s : Str) (xs ys : List Str)
    → All (λ x. str_in x ys ≡ false) xs
    → str_in s xs ≡ true
    → str_in s ys ≡ false
unfolding str_in
apart s [] ys h e = absurd (cc e)
apart s (x ∷ xs) ys h e = elim (Bool-cases (str_eq x s)) [
  | inl same ↦ subst (λ r. str_in r ys ≡ false) ((str_eq_iff x s).0 same) h.0
  | inr other ↦ apart s xs ys h.1 (rw other at e)
]

no_overlap : All (λ x. str_in x retryable_reasons ≡ false) non_retryable_reasons
unfolding str_in str_eq
no_overlap = (refl, (refl, (refl, (refl, tt))))

-- Under a policy of at most 1024 retries the decision never raises; its delay is at most the limit of delays; and
-- a failed transfer is retried exactly when the reason is a lost connection, a timeout or a busy peer and the
-- attempt is within the limit of retries.
pub should_retry_transfer-total :
    (earlier : ℕ) (reason : Str) (policy : TransferRetryPolicy)
    → policy.max_retries ≤ 1024
    → (d : Bool × ℕ) × (should_retry_transfer earlier reason policy ≡ some d)
      × (d.1 ≤ policy.max_backoff)
      × (d.0 ≡ str_in reason retryable_reasons && ltb earlier policy.max_retries)
unfolding should_retry_transfer
should_retry_transfer-total earlier reason policy few =
    elim (Bool-cases (str_in reason non_retryable_reasons)) [
      | inl e ↦ rw e (
        (false, 0),
        refl,
        omega arith,
        rw (apart reason non_retryable_reasons retryable_reasons no_overlap e) refl,
      )
      | inr e ↦ rw e (elim (Bool-cases (ltb policy.max_retries (suc earlier))) [
        | inl late ↦ rw late ((false, 0), refl, omega arith, ground arith)
        | inr early ↦ rw early (elim (Bool-cases (str_in reason retryable_reasons)) [
          | inr other ↦ rw other ((false, 0), refl, omega arith, refl)
          | inl known ↦
              let fits : ltb 1024 (suc earlier) ≡ false = ground arith in
              rw (known, fits)
                (
                  (true, min (policy.backoff_base * 2 ^ earlier) policy.max_backoff),
                  refl,
                  omega arith,
                  ground arith,
                )
        ])
      ])
    ]
