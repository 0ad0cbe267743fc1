-- ===== src/BlindBox/Saved.antt =====
-- A state that is written and read again.
use i2pchat.Prelude.{
  ℕ, zero, suc, ◌≤◌, ◌≡◌, refl, ◌∙◌, ap, Bool, false, ◌||◌, some, List, [], ◌∷◌, arith, leb, ◌==◌,
  length, map, ℤ, pos,
}
use i2pchat.Text.{str_eq}
use i2pchat.Sorting.{sort, insert}
use i2pchat.BlindBox.{
  BlindBoxState, is_in, advance, advance_recv_base, add, natural, naturals, is_version,
  window_range, checked, from_dict, to_dict,
}
use i2pchat.BlindBox.Window.{is_in-add}

abbrev before : ℕ → ℕ → Bool
before a b = leb a b

is_in-insert : (i x : ℕ) (ys : List ℕ) → is_in i (insert before x ys) ≡ (x == i) || is_in i ys
unfolding is_in insert
is_in-insert i x [] = refl
is_in-insert i x (y ∷ ys) = ground (arith, is_in-insert i x ys)

is_in-sort : (i : ℕ) (xs : List ℕ) → is_in i (sort before xs) ≡ is_in i xs
unfolding is_in sort
is_in-sort i [] = refl
is_in-sort i (x ∷ xs) =
    is_in-insert i x (sort before xs) ∙ ap (λ b. (x == i) || b) (is_in-sort i xs)

naturals-pos :
    (xs : List ℕ)
    → (ys : List ℕ) × (naturals (map pos xs) ≡ some ys) × ((i : ℕ) → is_in i ys ≡ is_in i xs)
unfolding naturals is_in
naturals-pos [] = ([], refl, λ i. refl)
naturals-pos (x ∷ xs) =
    let (ys, e, same) = naturals-pos xs in
    (add x ys, rw (e, naturals) refl, λ i. is_in-add i x ys ∙ ap (λ b. (x == i) || b) (same i))

pub advance-stop : (fuel : ℕ) (xs : List ℕ) (b : ℕ) → is_in b xs ≡ false → advance fuel xs b ≡ b
unfolding advance
advance-stop zero xs b h = refl
advance-stop (suc fuel) xs b h = rw h refl

pub window-ok : (n : ℕ) → 1 ≤ n → n ≤ 4096 → window_range (pos n) ≡ some n
unfolding window_range
window-ok n low high = ground arith

-- A state whose window is in range and whose base is not consumed is read back as it was written: the same
-- indices, window and time, and the same indices are consumed.
pub from_dict-to_dict :
    (now : ℤ) (s : BlindBoxState)
    → 1 ≤ s.recv_window
    → s.recv_window ≤ 4096
    → is_in s.recv_base s.consumed_recv ≡ false
    → (xs : List ℕ) × (from_dict now (to_dict s) ≡ some (record s { consumed_recv = xs }))
      × ((i : ℕ) → is_in i xs ≡ is_in i s.consumed_recv)
unfolding from_dict to_dict checked is_version natural advance_recv_base str_eq
from_dict-to_dict now s low high settled =
    let (xs, e, same) = naturals-pos (sort before s.consumed_recv) in
    let equal : (i : ℕ) → is_in i xs ≡ is_in i s.consumed_recv =
      λ i. same i ∙ is_in-sort i s.consumed_recv in
    (
      xs,
      rw (window-ok s.recv_window low high, e)
          (rw (advance-stop (length xs) xs s.recv_base (equal s.recv_base ∙ settled)) refl),
      equal,
    )
