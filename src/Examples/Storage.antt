-- ===== src/Examples/Storage.antt =====
-- History retention and the BlindBox state.
use i2pchat.Prelude.{
  false, ℕ, ◌≤◌, ◌≡◌, refl, min, Bool, true, ◌&&◌, ◌||◌, ◌==◌, Option, none, some, List, [], ◌∷◌,
  ltb, if◌then◌else◌, length, arith, pos, negsuc, ℤ, keep, is_empty,
}
use i2pchat.Text.{Str, codes, str_eq}
use i2pchat.Sorting.{count, sort}
use i2pchat.Retention.{HistoryEntry, RetentionPolicy, is_system, prune_by_count, apply_retention}
use i2pchat.Retention.Pruning.{prune_by_count-length, apply_retention-system}
use i2pchat.BlindBox.{
  BlindBoxState, StateData, is_in, mark_consumed, from_dict, to_dict, is_version,
}
use i2pchat.BlindBox.Saved.{from_dict-to_dict}
use i2pchat.BlindBox.Window.{IsNextBase, mark_consumed-IsNextBase, IsRead, from_dict-IsRead}

abbrev entry : Str → Str → HistoryEntry
entry kind ts = record {
  kind = kind;
  text = codes "x";
  ts = ts;
  message_id = none;
  delivery_state = none;
  delivery_route = none;
  delivery_hint = [];
  delivery_reason = [];
  retryable = false;
}

abbrev history : List HistoryEntry
history =
    entry (codes "system") (codes "a")
    ∷ entry (codes "me") (codes "b")
    ∷ entry (codes "peer") (codes "c")
    ∷ []

-- A reader of times that knows one letter
abbrev from_iso : Str → Option ℕ
from_iso [] = none
from_iso (c ∷ s) = some c

prune_by_count-length_example :
    length (prune_by_count from_iso history 1)
    ≡ (if ltb (count is_system history) 1 then min 1 (length history) else length history)
prune_by_count-length_example = prune_by_count-length from_iso history 1

abbrev no_age : RetentionPolicy
no_age = record { max_age_days = none; max_messages = some 2; per_peer = true }

abbrev kept : List HistoryEntry
kept = entry (codes "system") (codes "a") ∷ entry (codes "peer") (codes "c") ∷ []

abbrev any_entry : HistoryEntry → Bool
any_entry e = true

apply_retention-system_example :
    count (λ e. is_system e && any_entry e) kept ≡ count (λ e. is_system e && any_entry e) history
unfolding apply_retention i2pchat.Retention.prune_by_age i2pchat.Retention.limit_count
    prune_by_count sort keep is_system str_eq i2pchat.Sorting.insert i2pchat.Retention.recent
    i2pchat.Retention.last_slice i2pchat.Prelude.drop i2pchat.Retention.no_later
    i2pchat.Retention.entry_ts i2pchat.Text.before_suffix?
apply_retention-system_example =
    apply_retention-system from_iso 0 history kept no_age any_entry refl

abbrev window : BlindBoxState
window = record {
  send_index = 0;
  recv_base = 3;
  recv_window = 16;
  consumed_recv = 4 ∷ 5 ∷ [];
  updated_at = pos 0;
}

mark_consumed-IsNextBase_example :
    (s' : BlindBoxState) × (mark_consumed (pos 9) (pos 3) window ≡ some s')
    × IsNextBase s'.consumed_recv 3 s'.recv_base
    × ((i : ℕ) → is_in i s'.consumed_recv ≡ (3 == i) || is_in i (4 ∷ 5 ∷ []))
mark_consumed-IsNextBase_example = mark_consumed-IsNextBase (pos 9) 3 window

abbrev stored : StateData
stored = record {
  version = some (codes "BLINDBOX_STATE_V1");
  send_index = some (pos 2);
  recv_base = none;
  recv_window = some (pos 32);
  consumed_recv = some (pos 0 ∷ pos 1 ∷ pos 4 ∷ []);
  updated_at = some (pos 7);
}

abbrev loaded : BlindBoxState
loaded = record {
  send_index = 2;
  recv_base = 2;
  recv_window = 32;
  consumed_recv = 0 ∷ 1 ∷ 4 ∷ [];
  updated_at = pos 7;
}

from_dict-IsRead_example : IsRead loaded
unfolding from_dict is_version str_eq i2pchat.BlindBox.checked i2pchat.BlindBox.natural
    i2pchat.BlindBox.window_range i2pchat.BlindBox.naturals i2pchat.BlindBox.advance_recv_base
    i2pchat.BlindBox.advance i2pchat.BlindBox.add is_in
from_dict-IsRead_example = from_dict-IsRead (pos 9) stored loaded refl

from_dict-to_dict_example :
    (xs : List ℕ) × (from_dict (pos 9) (to_dict window)
      ≡ some (record window { consumed_recv = xs }))
    × ((i : ℕ) → is_in i xs ≡ is_in i (4 ∷ 5 ∷ []))
unfolding is_in
from_dict-to_dict_example = from_dict-to_dict (pos 9) window (omega arith) (omega arith) refl
