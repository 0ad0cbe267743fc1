-- ===== src/BlindBox.antt =====
-- `BlindBoxState` of i2pchat/storage/blindbox_state.py. A set is the list of its elements; the numbers of
-- a file are integers, those of a state are not negative.
pub mod Window
pub mod Saved
use i2pchat.Prelude.{
  ℕ, zero, suc, ◌+◌, Bool, true, false, ◌&&◌, ◌||◌, not, Option, none, some, List, [], ◌∷◌, ltb,
  leb, if◌then◌else◌, ◌==◌, length, get_or, map, ℤ, pos, negsuc,
}
use i2pchat.Text.{Str, codes, str_eq}
use i2pchat.Sorting.{sort}

infixl 5 ◌>>=◌
abbrev pub ◌>>=◌ {ℓ κ} : {A : Type ℓ} {B : Type κ} → Option A → (A → Option B) → Option B
none >>= f = none
some a >>= f = f a

pub record BlindBoxState : Type 0 where
  pub send_index : ℕ
  pub recv_base : ℕ
  pub recv_window : ℕ
  pub consumed_recv : List ℕ
  pub updated_at : ℤ

-- The keys of the file; `none` where one is missing
pub record StateData : Type 0 where
  pub version : Option Str
  pub send_index : Option ℤ
  pub recv_base : Option ℤ
  pub recv_window : Option ℤ
  pub consumed_recv : Option (List ℤ)
  pub updated_at : Option ℤ

-- `n in consumed`
unfoldable pub is_in : ℕ → List ℕ → Bool
is_in n [] = false
is_in n (x ∷ xs) = (x == n) || is_in n xs

-- `while base in consumed: base += 1`, at most `fuel` times
unfoldable pub advance : ℕ → List ℕ → ℕ → ℕ
advance zero consumed base = base
advance (suc fuel) consumed base =
    let rest = advance fuel consumed (suc base) in if is_in base consumed then rest else base

-- `advance_recv_base`: each turn meets another element, so there are no more turns than elements.
unfoldable pub advance_recv_base : BlindBoxState → BlindBoxState
advance_recv_base s = record s {
  recv_base = advance (length s.consumed_recv) s.consumed_recv s.recv_base;
}

-- `consumed.add(n)`
unfoldable pub add : ℕ → List ℕ → List ℕ
add n xs = if is_in n xs then xs else n ∷ xs

-- `mark_consumed` at a time; `none` is the `ValueError`.
unfoldable pub mark_consumed : ℤ → ℤ → BlindBoxState → Option BlindBoxState
mark_consumed now (negsuc n) s = none
mark_consumed now (pos recv_index) s =
    let s' = advance_recv_base (record s { consumed_recv = add recv_index s.consumed_recv }) in
    some (record s' { updated_at = now })

-- `n < 0` refused
unfoldable pub natural : ℤ → Option ℕ
natural (pos n) = some n
natural (negsuc n) = none

unfoldable pub naturals : List ℤ → Option (List ℕ)
naturals [] = some []
naturals (pos n ∷ xs) = elim (naturals xs) [ none ↦ none | some ns ↦ some (add n ns) ]
naturals (negsuc n ∷ xs) = none

-- The test on the version
unfoldable pub is_version : Option Str → Bool
is_version none = false
is_version (some v) = str_eq v (codes "BLINDBOX_STATE_V1")

unfoldable pub window_range : ℤ → Option ℕ
window_range (pos n) = if ltb n 1 || ltb 4096 n then none else some n
window_range (negsuc n) = none

-- The checks that follow the test on the version, in their order
unfoldable pub checked : ℤ → StateData → Option BlindBoxState
checked now data_ = do
  send_index ← natural (get_or (pos 0) data_.send_index)
  recv_base ← natural (get_or (pos 0) data_.recv_base)
  recv_window ← window_range (get_or (pos 16) data_.recv_window)
  consumed_recv ← naturals (get_or [] data_.consumed_recv)
  some (record {
    send_index = send_index;
    recv_base = recv_base;
    recv_window = recv_window;
    consumed_recv = consumed_recv;
    updated_at = get_or now data_.updated_at;
  })

-- `from_dict` at a time; `none` is a `ValueError`.
unfoldable pub from_dict : ℤ → StateData → Option BlindBoxState
from_dict now data_ =
    if is_version data_.version
    then elim (checked now data_) [ none ↦ none | some s ↦ some (advance_recv_base s) ]
    else none

-- `to_dict`
unfoldable pub to_dict : BlindBoxState → StateData
to_dict s = record {
  version = some (codes "BLINDBOX_STATE_V1");
  send_index = some (pos s.send_index);
  recv_base = some (pos s.recv_base);
  recv_window = some (pos s.recv_window);
  consumed_recv = some (map pos (sort (λ a b. leb a b) s.consumed_recv));
  updated_at = some s.updated_at;
}
