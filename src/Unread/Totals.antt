-- ===== src/Unread/Totals.antt =====
-- The sum of the counts, after a message and after a conversation is opened.
use i2pchat.Prelude.{
  ℕ, ◌+◌, ◌≡◌, refl, ap, Bool, false, ◌&&◌, Option, some, [], ◌∷◌, arith, if◌then◌else◌, is_empty,
  get_or, Bool-cases, inl, inr, subst,
}
use i2pchat.Text.{Str, str_eq, str_eq_iff, str_in, Distinct}
use i2pchat.Dict.{Dict, lookup, put, pop, keys}
use i2pchat.Unread.{
  bump, is_active, bump_unread_for_incoming_peer_message, clear_unread_for_peer, total_unread,
}

total-put :
    (key : Str) (n : ℕ) (counts : Dict ℕ)
    → total_unread (put key n counts) + get_or 0 (lookup key counts) ≡ total_unread counts + n
unfolding total_unread put lookup
total-put key n [] = omega arith
total-put key n ((j, v) ∷ counts) = elim (Bool-cases (str_eq j key)) [
  | inl e ↦ rw e (omega arith)
  | inr e ↦ rw e (omega (arith, total-put key n counts))
]

total-bump :
    (key : Str) (counts : Dict ℕ) → total_unread (bump key counts) ≡ total_unread counts + 1
unfolding bump
total-bump key counts = omega (arith, total-put key (get_or 0 (lookup key counts) + 1) counts)

pop-absent :
    (key : Str) (counts : Dict ℕ) → str_in key (keys counts) ≡ false → pop key counts ≡ counts
unfolding pop str_in
pop-absent key [] h = refl
pop-absent key ((j, v) ∷ counts) h = elim (Bool-cases (str_eq j key)) [
  | inl e ↦ absurd (ground (arith, e))
  | inr e ↦ rw e (ap (λ d. (j, v) ∷ d) (pop-absent key counts (ground (arith, e))))
]

-- A message with a key adds one to the sum of the counts, except where the key is empty, and where
-- its conversation is the active one and in the foreground: then the sum stays.
pub total-incoming :
    (active : Option Str) (key : Str) (foreground : Bool) (counts : Dict ℕ)
    → total_unread (bump_unread_for_incoming_peer_message active (some key) foreground counts)
      ≡ total_unread counts
        + (if is_empty key then 0 else if is_active key active && foreground then 0 else 1)
unfolding bump_unread_for_incoming_peer_message
total-incoming active key foreground counts = ground (arith, total-bump key counts)

-- Opening a conversation takes its count, and no other, from the sum.
pub total-cleared :
    (key : Str) (counts : Dict ℕ)
    → Distinct (keys counts)
    → total_unread (clear_unread_for_peer (some key) counts) + get_or 0 (lookup key counts)
      ≡ total_unread counts
unfolding clear_unread_for_peer total_unread pop lookup
total-cleared key [] d = refl
total-cleared key ((j, v) ∷ counts) d = elim (Bool-cases (str_eq j key)) [
  | inl e ↦
      let absent : str_in key (keys counts) ≡ false =
        subst (λ k. str_in k (keys counts) ≡ false) ((str_eq_iff j key).0 e) d.0 in
      rw e (omega (arith, ap total_unread (pop-absent key counts absent)))
  | inr e ↦ rw e (omega (arith, total-cleared key counts d.1))
]
