-- ===== src/Groups/Store/Kept.antt =====
-- The BlindBox channel of a group in i2pchat/storage/group_store.py, read as it was written.
use i2pchat.Prelude.{◌≤◌, ◌≡◌, refl, ap, false, Option, none, some, length, leb, map, ℤ, pos}
use i2pchat.Text.{str_eq}
use i2pchat.Text.Case.{CaseMapping}
use i2pchat.Sorting.{sort}
use i2pchat.BlindBox.{
  BlindBoxState, is_in, advance_recv_base, natural, naturals, is_version, checked, from_dict,
  to_dict,
}
use i2pchat.BlindBox.Saved.{advance-stop, window-ok}
use i2pchat.Groups.Store.Channel.{
  normal_fields, with_state, make_channel, deserialize_channel, serialize_channel,
}
use i2pchat.Groups.Store.Conversation.{Channel, load_channel, saved_channel}

-- A window in range, a base that is not consumed, and the list of the consumed indices in the order in which a
-- reading leaves it
pub record IsKeptState (s : BlindBoxState) : Type 0 where
  pub window_low : 1 ≤ s.recv_window
  pub window_high : s.recv_window ≤ 4096
  pub settled : is_in s.recv_base s.consumed_recv ≡ false
  pub ordered : naturals (map pos (sort (λ a b. leb a b) s.consumed_recv)) ≡ some s.consumed_recv

state_again : (now : ℤ) (s : BlindBoxState) → IsKeptState s → from_dict now (to_dict s) ≡ some s
unfolding from_dict to_dict checked is_version natural advance_recv_base str_eq
state_again now s ok =
    rw (window-ok s.recv_window ok.window_low ok.window_high, ok.ordered)
      (rw (advance-stop (length s.consumed_recv) s.consumed_recv s.recv_base ok.settled) refl)

-- A channel that its constructor would leave as it is, with such a state
abbrev pub IsKept : CaseMapping → Option Channel → Type 0
IsKept u none = Unit
IsKept u (some c) = IsKeptState c.state × (normal_fields u c ≡ c)

pub load-saved :
    (u : CaseMapping) (now : ℤ) (channel : Option Channel)
    → IsKept u channel
    → load_channel u now (saved_channel channel) ≡ some channel
unfolding load_channel deserialize_channel serialize_channel make_channel with_state
load-saved u now none ok = refl
load-saved u now (some c) ok =
    rw (state_again now c.state ok.0)
      (rw (state_again now c.state ok.0) (ap (λ x. some (some x)) ok.1))
