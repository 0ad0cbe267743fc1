-- ===== src/Retention.antt =====
-- i2pchat/storage/history_retention.py. A time is the number of microseconds since the first year;
-- what `datetime.fromisoformat` reads is a parameter, and every time stamp has its zone.
pub mod Pruning
use i2pchat.Prelude.{
  ℕ, ◌+◌, ◌-◌, ◌*◌, Bool, true, false, ◌||◌, not, Option, none, some, List, [], ◌∷◌, ltb, leb,
  if◌then◌else◌, is_empty, get_or, length, keep, drop, ◌++◌, ◌==◌,
}
use i2pchat.Text.{Str, codes, str_eq, before_suffix?}
use i2pchat.Sorting.{sort}

pub record HistoryEntry : Type 0 where
  pub kind : Str
  pub text : Str
  pub ts : Str
  pub message_id : Option Str
  pub delivery_state : Option Str
  pub delivery_route : Option Str
  pub delivery_hint : Str
  pub delivery_reason : Str
  pub retryable : Bool

pub record RetentionPolicy : Type 0 where
  pub max_age_days : Option ℕ
  pub max_messages : Option ℕ
  pub per_peer : Bool

-- A limit that `__post_init__` refuses; it also refuses one below 0, which is no limit here.
unfoldable pub is_refused : Option ℕ → Bool
is_refused none = false
is_refused (some n) = n == 0

-- `RetentionPolicy(…)`; `none` is the `ValueError`.
unfoldable pub make_policy : Option ℕ → Option ℕ → Bool → Option RetentionPolicy
make_policy max_age_days max_messages per_peer =
    if is_refused max_age_days || is_refused max_messages
    then none
    else some
        (record { max_age_days = max_age_days; max_messages = max_messages; per_peer = per_peer })

-- `datetime(1970, 1, 1, tzinfo=timezone.utc)`
abbrev pub epoch_start : ℕ
epoch_start = 62135596800000000

abbrev pub day : ℕ
day = 86400000000

-- `_age_cutoff`; `none` is the `OverflowError` of a cutoff before the first year.
unfoldable pub age_cutoff : ℕ → ℕ → Option ℕ
age_cutoff now max_age_days =
    if ltb now (max_age_days * day) then none else some (now - max_age_days * day)

unfoldable pub is_system : HistoryEntry → Bool
is_system e = str_eq e.kind (codes "system")

-- `[-n:]`, which is the whole list for `n = 0`
unfoldable pub last_slice {ℓ} : {A : Type ℓ} → ℕ → List A → List A
last_slice n xs = if n == 0 then xs else drop (length xs - n) xs

module _ (from_iso : Str → Option ℕ) where
  unfoldable pub entry_ts : HistoryEntry → ℕ
  entry_ts e = get_or epoch_start (
      from_iso
        (elim (before_suffix? (codes "Z") e.ts) [ none ↦ e.ts | some r ↦ r ++ codes "+00:00" ]))

  unfoldable pub no_later : HistoryEntry → HistoryEntry → Bool
  no_later a b = leb (entry_ts a) (entry_ts b)

  -- The test on the length and the slice
  unfoldable pub recent : ℕ → List HistoryEntry → List HistoryEntry
  recent keep_non_system non_system =
      if ltb keep_non_system (length non_system)
      then last_slice keep_non_system non_system
      else non_system

  -- `_prune_by_count`; `max(0, a - b)` is the subtraction that stops at 0.
  unfoldable pub prune_by_count : List HistoryEntry → ℕ → List HistoryEntry
  prune_by_count entries max_messages =
      let system = keep is_system entries in
      let non_system = keep (λ e. not (is_system e)) entries in
      let keep_non_system = max_messages - length system in
      sort no_later (system ++ recent keep_non_system non_system)

  unfoldable pub prune_by_age : ℕ → Option ℕ → List HistoryEntry → Option (List HistoryEntry)
  prune_by_age now none entries = some entries
  prune_by_age now (some days) entries = elim (age_cutoff now days) [
    | none ↦ none
    | some cutoff ↦ some (keep (λ e. is_system e || leb cutoff (entry_ts e)) entries)
  ]

  -- The count limit, where it is set and passed
  unfoldable pub limit_count : Option ℕ → List HistoryEntry → List HistoryEntry
  limit_count none entries = entries
  limit_count (some n) entries =
      if ltb n (length entries) then prune_by_count entries n else entries

  unfoldable pub apply_retention :
      ℕ → List HistoryEntry → RetentionPolicy → Option (List HistoryEntry)
  apply_retention now entries policy =
      if is_empty entries then some [] else elim (prune_by_age now policy.max_age_days entries) [
        | none ↦ none
        | some result ↦ some (limit_count policy.max_messages result)
      ]
