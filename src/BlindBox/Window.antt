-- ===== src/BlindBox/Window.antt =====
-- The receive base is the first index, from the old base on, that was not consumed.
use i2pchat.Prelude.{
  ℕ, zero, suc, ◌+◌, ◌≤◌, ◌<◌, ◌≡◌, refl, ap, true, false, ◌||◌, Option, none, some, List, [], ◌∷◌,
  arith, ltb, leb, ◌==◌, ==_iff, if◌then◌else◌, length, Bool-cases, inl, inr, if_rule, option_rule,
  get_or, subst, some-injective, ℤ, pos, negsuc,
}
use i2pchat.BlindBox.{
  BlindBoxState, StateData, is_in, advance, advance_recv_base, add, mark_consumed, checked,
  from_dict, is_version, window_range, natural, naturals, ◌>>=◌,
}

-- How many elements are at least `b`
from : ℕ → List ℕ → ℕ
from b [] = 0
from b (x ∷ xs) = (if leb b x then 1 else 0) + from b xs

from-le : (b : ℕ) (xs : List ℕ) → from b xs ≤ length xs
unfolding from
from-le b [] = omega arith
from-le b (x ∷ xs) = ground (arith, from-le b xs)

from-suc : (b : ℕ) (xs : List ℕ) → from (suc b) xs ≤ from b xs
unfolding from
from-suc b [] = omega arith
from-suc b (x ∷ xs) = ground (arith, from-suc b xs)

-- An element that is passed is counted no more.
from-passed : (b : ℕ) (xs : List ℕ) → is_in b xs ≡ true → from (suc b) xs < from b xs
unfolding from is_in
from-passed b [] h = absurd (cc h)
from-passed b (x ∷ xs) h = ground (arith, from-passed b xs, from-suc b xs)

-- `c` is the first index from `b` on that is not in `xs`.
abbrev pub IsNextBase : List ℕ → ℕ → ℕ → Type 0
IsNextBase xs b c = (b ≤ c) × (is_in c xs ≡ false) × ((i : ℕ) → b ≤ i → i < c → is_in i xs ≡ true)

reached :
    (xs : List ℕ) (b i c : ℕ)
    → is_in b xs ≡ true
    → b ≤ i
    → i < c
    → ((j : ℕ) → suc b ≤ j → j < c → is_in j xs ≡ true)
    → is_in i xs ≡ true
reached xs b i c e lo hi mid = elim (Bool-cases (b == i)) [
  | inl same ↦ subst (λ j. is_in j xs ≡ true) ((==_iff b i).0 same) e
  | inr other ↦ mid i (ground arith) hi
]

advance-IsNextBase :
    (fuel : ℕ) (xs : List ℕ) (b : ℕ) → from b xs ≤ fuel → IsNextBase xs b (advance fuel xs b)
unfolding advance
advance-IsNextBase zero xs b h = elim (Bool-cases (is_in b xs)) [
  | inl e ↦ absurd (omega (arith, from-passed b xs e))
  | inr e ↦ (omega arith, e, λ i lo hi. absurd (omega arith))
]
advance-IsNextBase (suc fuel) xs b h = elim (Bool-cases (is_in b xs)) [
  | inl e ↦
      let (le, out, mid) = advance-IsNextBase fuel xs (suc b) (omega (arith, from-passed b xs e)) in
      rw e (omega arith, out, λ i lo hi. reached xs b i (advance fuel xs (suc b)) e lo hi mid)
  | inr e ↦ rw e (omega arith, e, λ i lo hi. absurd (omega arith))
]

advance_recv_base-IsNextBase :
    (s : BlindBoxState) → IsNextBase s.consumed_recv s.recv_base (advance_recv_base s).recv_base
unfolding advance_recv_base
advance_recv_base-IsNextBase s =
    advance-IsNextBase (length s.consumed_recv) s.consumed_recv s.recv_base
      (from-le s.recv_base s.consumed_recv)

pub is_in-add : (i n : ℕ) (xs : List ℕ) → is_in i (add n xs) ≡ (n == i) || is_in i xs
unfolding add is_in
is_in-add i n xs = elim (Bool-cases (is_in n xs)) [
  | inl e ↦ rw e (elim (Bool-cases (n == i)) [
    | inl same ↦ rw same (subst (λ j. is_in j xs ≡ true) ((==_iff n i).0 same) e)
    | inr other ↦ rw other
  ])
  | inr e ↦ rw e
]

-- Marking an index ends. The new base is the first index, from the old one on, that is neither marked now
-- nor was before; the indices marked before and the new one are those that are marked afterwards.
pub mark_consumed-IsNextBase :
    (now : ℤ) (n : ℕ) (s : BlindBoxState)
    → (s' : BlindBoxState) × (mark_consumed now (pos n) s ≡ some s')
      × IsNextBase s'.consumed_recv s.recv_base s'.recv_base
      × ((i : ℕ) → is_in i s'.consumed_recv ≡ (n == i) || is_in i s.consumed_recv)
unfolding mark_consumed advance_recv_base
mark_consumed-IsNextBase now n s = (
  _,
  refl,
  advance_recv_base-IsNextBase (record s { consumed_recv = add n s.consumed_recv }),
  λ i. is_in-add i n s.consumed_recv,
)

-- A step of a chain whose result has a property
bind_rule :
    {A : Type 0} {B : Type 0} (P : B → Type 0) (o : Option A) (f : A → Option B)
    → ((a : A) → o ≡ some a → (b : B) → f a ≡ some b → P b)
    → (b : B) → (o >>= f) ≡ some b
    → P b
bind_rule P none f k b h = absurd (cc h)
bind_rule P (some a) f k b h = k a refl b h

abbrev InRange : ℕ → Type 0
InRange n = (1 ≤ n) × (n ≤ 4096)

range : (z : ℤ) (n : ℕ) → window_range z ≡ some n → InRange n
unfolding window_range
range (pos n) m h = elim (Bool-cases (ltb n 1 || ltb 4096 n)) [
  | inl e ↦ absurd (cc (rw e at h))
  | inr e ↦ subst InRange (some-injective (rw e at h)) (ground arith)
]
range (negsuc n) m h = absurd (cc h)

checked-window :
    (now : ℤ) (data_ : StateData) (s : BlindBoxState)
    → checked now data_ ≡ some s
    → InRange s.recv_window
unfolding checked
checked-window now data_ s h =
    bind_rule (λ b. InRange b.recv_window) (natural (get_or (pos 0) data_.send_index)) _
      (λ send_index _.
        bind_rule (λ b. InRange b.recv_window) (natural (get_or (pos 0) data_.recv_base)) _
          (λ recv_base _.
            bind_rule (λ b. InRange b.recv_window)
              (window_range (get_or (pos 16) data_.recv_window)) _
              (λ n found.
                bind_rule (λ b. InRange b.recv_window) (naturals (get_or [] data_.consumed_recv)) _
                  (λ consumed _ b e.
                    subst InRange (ap (λ r. r.recv_window) (some-injective e))
                      (range (get_or (pos 16) data_.recv_window) n found)))))
      s h

-- What a read state satisfies: its base is not consumed, and its window is in range.
abbrev pub IsRead : BlindBoxState → Type 0
IsRead s =
    (is_in s.recv_base s.consumed_recv ≡ false) × (1 ≤ s.recv_window) × (s.recv_window ≤ 4096)

advanced :
    (r : BlindBoxState)
    → (1 ≤ r.recv_window) × (r.recv_window ≤ 4096)
    → IsRead (advance_recv_base r)
unfolding advance_recv_base
advanced r w = ((advance_recv_base-IsNextBase r).1, w.0, w.1)

-- Where a state is read from a file, its window is from 1 to 4096 and its base is an index that was not
-- consumed, whatever the file says of them.
pub from_dict-IsRead :
    (now : ℤ) (data_ : StateData) (s : BlindBoxState) → from_dict now data_ ≡ some s → IsRead s
unfolding from_dict
from_dict-IsRead now data_ s =
    if_rule (λ o. o ≡ some s → IsRead s) (is_version data_.version)
      (elim (checked now data_) [ none ↦ none | some r ↦ some (advance_recv_base r) ]) none
      (λ _.
        option_rule (λ o. o ≡ some s → IsRead s) (checked now data_) none
          (λ r. some (advance_recv_base r)) (λ _ h. absurd (cc h))
          (λ r found h.
            subst IsRead (some-injective h) (advanced r (checked-window now data_ r found))))
      (λ _ h. absurd (cc h))
