-- ===== src/PeerAddress.antt =====
-- Peer identifiers: `normalize_peer_address` and `same_i2p_destination` of
-- i2pchat/storage/contact_book.py, `normalize_member_id` of i2pchat/groups/models.py and
-- `_normalize_peer_id` of i2pchat/core/session_manager.py.
pub mod Canonical
pub mod Same
pub mod Typed
use i2pchat.Prelude.{
  ℕ, Bool, ◌&&◌, [], ◌∷◌, ◌||◌, Option, none, some, leb, if◌then◌else◌, all, length, is_empty,
  get_or,
}
use i2pchat.Text.{Str, codes, str_eq, before_suffix?}
use i2pchat.Text.Strip.{strip}
use i2pchat.Text.Case.{CaseMapping}

-- A character of `[a-z2-7]`
unfoldable pub is_base32 : ℕ → Bool
is_base32 c = (leb b'a' c && leb c b'z') || (leb b'2' c && leb c b'7')

-- `_CONTACT_HOST_RE.fullmatch(host)`: `^[a-z2-7]{40,80}$`
unfoldable pub is_host : Str → Bool
unfolding is_base32 all
is_host host = leb 40 (length host) && leb (length host) 80 && all is_base32 host

abbrev pub suffix : Str
suffix = codes ".b32.i2p"

module _ (u : CaseMapping) where
  -- The branches after `value = raw.strip().lower()`
  unfoldable pub host_of : Str → Option Str
  host_of value =
      if is_empty value
      then none
      else let host = get_or value (before_suffix? suffix value) in
        if is_host host then some host else none

  unfoldable pub normalize_peer_address : Str → Option Str
  normalize_peer_address raw = host_of (u.lower (strip raw))

  unfoldable pub normalize_member_id : Str → Str
  normalize_member_id value =
      let raw = u.lower (strip value) in
      if is_empty raw then [] else get_or raw (normalize_peer_address raw)

  -- `_normalize_peer_id` of the session manager
  unfoldable pub normalize_peer_id : Str → Str
  normalize_peer_id peer_id =
      let raw = strip peer_id in
      if is_empty raw
      then []
      else let lower = u.lower raw in get_or lower (normalize_peer_address lower)

  unfoldable pub same_or : Str → Str → Option Str → Option Str → Bool
  same_or left right (some nl) (some nr) = str_eq nl nr
  same_or left right _ _ = str_eq (u.lower (strip left)) (u.lower (strip right))

  unfoldable pub same_i2p_destination : Str → Str → Bool
  same_i2p_destination left right =
      same_or left right (normalize_peer_address left) (normalize_peer_address right)
