-- ===== src/Groups/Store/Channel.antt =====
-- `GroupBlindBoxChannel` of i2pchat/storage/group_store.py, its constructor, and its form in the file.
use i2pchat.Prelude.{Option, some, List, [], ℤ, pos, map}
use i2pchat.Text.{Str}
use i2pchat.Text.Strip.{strip}
use i2pchat.Text.Case.{CaseMapping}
use i2pchat.BlindBox.{BlindBoxState, StateData, from_dict, to_dict, ◌>>=◌}
use i2pchat.Groups.Models.{distinct_members}
use i2pchat.Groups.Store.Models.{at_least_zero, strip_or_none}

-- An item of `prev_roots`
pub record PrevRoot : Type 0 where
  pub group_epoch : ℤ
  pub root_epoch : ℤ
  pub expires_at : ℤ
  pub secret_enc : Str

-- The channel, over the form of its state: `BlindBoxState` in memory, `StateData` in the file
pub record GroupBlindBoxChannel (S : Type 0) : Type 0 where
  pub channel_id : Str
  pub group_epoch : ℤ
  pub state : S
  pub root_secret_enc : Option Str
  pub root_epoch : ℤ
  pub root_created_at : ℤ
  pub root_send_index_base : ℤ
  pub pending_root_secret_enc : Option Str
  pub pending_root_epoch : ℤ
  pub pending_root_created_at : ℤ
  pub pending_root_send_index_base : ℤ
  pub pending_root_target_members : List Str
  pub pending_root_acked_members : List Str
  pub prev_roots : List PrevRoot

-- `max(0, int(value))`, kept as an integer
abbrev pub clamped : ℤ → ℤ
clamped z = pos (at_least_zero z)

unfoldable pub make_root : PrevRoot → PrevRoot
make_root r = record r { secret_enc = strip r.secret_enc }

-- The same channel with another state
unfoldable pub with_state : {S T : Type 0} → T → GroupBlindBoxChannel S → GroupBlindBoxChannel T
with_state state c = record {
  channel_id = c.channel_id;
  group_epoch = c.group_epoch;
  state = state;
  root_secret_enc = c.root_secret_enc;
  root_epoch = c.root_epoch;
  root_created_at = c.root_created_at;
  root_send_index_base = c.root_send_index_base;
  pending_root_secret_enc = c.pending_root_secret_enc;
  pending_root_epoch = c.pending_root_epoch;
  pending_root_created_at = c.pending_root_created_at;
  pending_root_send_index_base = c.pending_root_send_index_base;
  pending_root_target_members = c.pending_root_target_members;
  pending_root_acked_members = c.pending_root_acked_members;
  prev_roots = c.prev_roots;
}

-- `_serialize_blindbox_channel`
unfoldable pub serialize_channel :
    GroupBlindBoxChannel BlindBoxState → GroupBlindBoxChannel StateData
serialize_channel c = with_state (to_dict c.state) c

module _ (u : CaseMapping) where
  -- The fields of `__post_init__` other than the state
  unfoldable pub normal_fields : {S : Type 0} → GroupBlindBoxChannel S → GroupBlindBoxChannel S
  normal_fields c = record {
    channel_id = strip c.channel_id;
    group_epoch = clamped c.group_epoch;
    state = c.state;
    root_secret_enc = strip_or_none c.root_secret_enc;
    root_epoch = clamped c.root_epoch;
    root_created_at = clamped c.root_created_at;
    root_send_index_base = clamped c.root_send_index_base;
    pending_root_secret_enc = strip_or_none c.pending_root_secret_enc;
    pending_root_epoch = clamped c.pending_root_epoch;
    pending_root_created_at = clamped c.pending_root_created_at;
    pending_root_send_index_base = clamped c.pending_root_send_index_base;
    pending_root_target_members = distinct_members u [] c.pending_root_target_members;
    pending_root_acked_members = distinct_members u [] c.pending_root_acked_members;
    prev_roots = map make_root c.prev_roots;
  }

  -- `GroupBlindBoxChannel(…)` at a time; `none` is the `ValueError` of the state.
  unfoldable pub make_channel :
      ℤ → GroupBlindBoxChannel BlindBoxState → Option (GroupBlindBoxChannel BlindBoxState)
  make_channel now c = do
    state ← from_dict now (to_dict c.state)
    some (normal_fields (with_state state c))

  -- `_deserialize_blindbox_channel`
  unfoldable pub deserialize_channel :
      ℤ → GroupBlindBoxChannel StateData → Option (GroupBlindBoxChannel BlindBoxState)
  deserialize_channel now c = do
    state ← from_dict now c.state
    make_channel now (with_state state c)
