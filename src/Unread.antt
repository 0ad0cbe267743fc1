-- ===== src/Unread.antt =====
-- i2pchat/presentation/unread_counters.py. A key is a text or `None`; the table of counts is passed on.
pub mod Totals
use i2pchat.Prelude.{
  ℕ, ◌+◌, Bool, true, false, ◌&&◌, Option, none, some, List, [], ◌∷◌, if◌then◌else◌, is_empty,
  get_or,
}
use i2pchat.Text.{Str, str_eq}
use i2pchat.Dict.{Dict, lookup, put, pop}

-- `counts[key] = counts.get(key, 0) + 1`
unfoldable pub bump : Str → Dict ℕ → Dict ℕ
bump key counts = put key (get_or 0 (lookup key counts) + 1) counts

-- `key == active_key`
unfoldable pub is_active : Str → Option Str → Bool
is_active key none = false
is_active key (some active_key) = str_eq key active_key

unfoldable pub bump_unread_if_inactive : Option Str → Option Str → Dict ℕ → Dict ℕ
bump_unread_if_inactive active_key none counts = counts
bump_unread_if_inactive active_key (some key) counts =
    if is_empty key then counts else if is_active key active_key then counts else bump key counts

unfoldable pub bump_unread_for_incoming_peer_message :
    Option Str → Option Str → Bool → Dict ℕ → Dict ℕ
bump_unread_for_incoming_peer_message active_key none chat_is_foreground counts = counts
bump_unread_for_incoming_peer_message active_key (some key) chat_is_foreground counts =
    if is_empty key
    then counts
    else if is_active key active_key && chat_is_foreground
    then counts
    else bump key counts

unfoldable pub clear_unread_for_peer : Option Str → Dict ℕ → Dict ℕ
clear_unread_for_peer none counts = counts
clear_unread_for_peer (some key) counts = pop key counts

unfoldable pub total_unread : Dict ℕ → ℕ
total_unread [] = 0
total_unread ((key, n) ∷ counts) = n + total_unread counts
