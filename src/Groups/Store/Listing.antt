-- ===== src/Groups/Store/Listing.antt =====
-- `list_group_states` of i2pchat/storage/group_store.py: the records of a profile in its directory.
use i2pchat.Prelude.{
  Bool, false, ◌&&◌, Option, none, some, List, [], ◌∷◌, ◌++◌, if◌then◌else◌, is_empty, leb, ◌==◌,
  keep, pos, negsuc, is_some,
}
use i2pchat.Text.{Str, codes, before_suffix?, after_prefix?}
use i2pchat.Text.Order.{str_leb}
use i2pchat.Dict.{lookup, keys}
use i2pchat.Sorting.{sort}
use i2pchat.BlindBox.{◌>>=◌}
use i2pchat.Groups.Models.{GroupState}
use i2pchat.Groups.Store.Conversation.{GroupRecord, deserialize_state}
use i2pchat.Groups.Store.Files.{Disk, read_group_payload}
use i2pchat.Groups.Store.Operations.{Environment}

-- `payload.get("version", 0) == GROUP_RECORD_VERSION`
unfoldable pub is_current : GroupRecord → Bool
is_current r = elim r.version [ pos n ↦ n == 1 | negsuc n ↦ false ]

-- `item.updated_at` in descending order; equal ones keep their order.
unfoldable pub not_older : GroupState → GroupState → Bool
not_older a b = leb b.updated_at a.updated_at

module _ (env : Environment) where
  abbrev prefix : Str
  prefix = env.profile ++ codes ".group."

  abbrev suffix : Str
  suffix = codes ".json"

  -- The test on a name in `_group_record_paths`
  unfoldable pub is_record_name : Str → Bool
  is_record_name name = is_some (after_prefix? prefix name) && is_some (before_suffix? suffix name)

  -- `_group_record_paths`, as names in the directory
  unfoldable pub group_record_paths : Disk → List Str
  group_record_paths disk = keep is_record_name (sort str_leb (keys disk))

  -- `_group_token_from_record_path`: a prefix and a suffix that overlap leave nothing.
  unfoldable pub group_token_from_record_path : Str → Option Str
  group_token_from_record_path name =
      if is_record_name name
      then elim (after_prefix? prefix name) [
        | none ↦ none
        | some rest ↦ elim (before_suffix? suffix rest) [
          | none ↦ none
          | some token ↦ if is_empty token then none else some token
        ]
      ]
      else none

  -- The state in one record, where it can be read and has the version
  unfoldable pub listed_state : Disk → Str → Option GroupState
  listed_state disk path = do
    token ← group_token_from_record_path path
    raw ← lookup path disk
    payload ← read_group_payload env.json env.crypto raw token env.identity_key
    if is_current payload then some (deserialize_state env.case payload.state) else none

  unfoldable pub listed_states : Disk → List Str → List GroupState
  listed_states disk [] = []
  listed_states disk (path ∷ paths) =
      let rest = listed_states disk paths in
      elim (listed_state disk path) [ none ↦ rest | some s ↦ s ∷ rest ]

  unfoldable pub list_group_states : Disk → List GroupState
  list_group_states disk = sort not_older (listed_states disk (group_record_paths disk))
