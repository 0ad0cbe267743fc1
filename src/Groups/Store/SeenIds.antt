-- ===== src/Groups/Store/SeenIds.antt =====
-- The ids that a stored conversation remembers: distinct, not blank, and no more than the limit.
use i2pchat.Prelude.{
  ℕ, zero, suc, ◌-◌, ◌≤◌, ◌≡◌, refl, ap, ◌∙◌, sym, true, false, ◌||◌, List, [], ◌∷◌, ◌++◌, arith,
  ltb, length, drop, length-drop, is_empty, if_rule, append_assoc, append-nil, All, All-append,
}
use i2pchat.Text.{Str, str_eq_iff, str_in, Distinct}
use i2pchat.Text.Strip.{strip, strip_idem}
use i2pchat.Retention.{last_slice}
use i2pchat.Groups.Store.Conversation.{
  max_seen_group_msg_ids, remember, remember_all, cut_seen, stripped,
}

-- Ids as they are remembered
abbrev pub AreIds : List Str → Type 0
AreIds ids = All (λ s. (strip s ≡ s) × (is_empty s ≡ false)) ids × Distinct ids

pub str_in-append : (s : Str) (xs ys : List Str) → str_in s (xs ++ ys) ≡ str_in s xs || str_in s ys
unfolding str_in
str_in-append s [] ys = refl
str_in-append s (x ∷ xs) ys = ground (arith, str_in-append s xs ys)

Distinct-snoc :
    (ids : List Str) (s : Str) → Distinct ids → str_in s ids ≡ false → Distinct (ids ++ s ∷ [])
unfolding str_in
Distinct-snoc [] s d h = (refl, tt)
Distinct-snoc (x ∷ ids) s d h = (
  ground (arith, str_eq_iff x s, str_eq_iff s x, str_in-append x ids (s ∷ [])),
  Distinct-snoc ids s d.1 (ground arith),
)

pub AreIds-snoc :
    (ids : List Str) (s : Str)
    → AreIds ids
    → is_empty (strip s) ≡ false
    → str_in (strip s) ids ≡ false
    → AreIds (ids ++ strip s ∷ [])
AreIds-snoc ids s h b n =
    (All-append _ ids (strip s ∷ []) h.0 ((strip_idem s, b), tt), Distinct-snoc ids (strip s) h.1 n)

-- What the two ways of `_remember` do
remember-AreIds : (ids : List Str) (raw : Str) → AreIds ids → AreIds (remember ids raw)
unfolding remember
remember-AreIds ids raw h =
    if_rule AreIds (is_empty (strip raw) || str_in (strip raw) ids) ids (ids ++ strip raw ∷ [])
      (λ _. h) (λ e. AreIds-snoc ids raw h (ground arith) (ground arith))

pub remember_all-AreIds : (ids raw : List Str) → AreIds ids → AreIds (remember_all ids raw)
unfolding remember_all
remember_all-AreIds ids [] h = h
remember_all-AreIds ids (r ∷ raw) h =
    remember_all-AreIds (remember ids r) raw (remember-AreIds ids r h)

-- An id that is blank, or remembered already
abbrev pub IsKnown : List Str → Str → Type 0
IsKnown ids raw = is_empty (strip raw) || str_in (strip raw) ids ≡ true

pub remember_all-known : (ids raw : List Str) → All (IsKnown ids) raw → remember_all ids raw ≡ ids
unfolding remember_all remember
remember_all-known ids [] h = refl
remember_all-known ids (r ∷ raw) h = rw h.0 (remember_all-known ids raw h.1)

abbrev pub Apart : List Str → List Str → Type 0
Apart ids new = All (λ s. str_in s ids ≡ false) new

Apart-snoc :
    (ids new : List Str) (s : Str)
    → str_in s new ≡ false
    → Apart ids new
    → Apart (ids ++ s ∷ []) new
unfolding str_in
Apart-snoc ids [] s h a = tt
Apart-snoc ids (x ∷ new) s h a = (
  ground (arith, str_eq_iff x s, str_eq_iff s x, str_in-append x ids (s ∷ [])),
  Apart-snoc ids new s (ground arith) a.1,
)

pub remember_all-new :
    (ids new : List Str) → AreIds new → Apart ids new → remember_all ids new ≡ ids ++ new
unfolding remember_all remember
remember_all-new ids [] h a = sym (append-nil ids)
remember_all-new ids (s ∷ new) h a =
    rw (h.0.0.0, h.0.0.1, a.0)
      (remember_all-new (ids ++ s ∷ []) new (h.0.1, h.1.1) (Apart-snoc ids new s h.1.0 a.1)
        ∙ append_assoc ids (s ∷ []) new)

no_ids : (new : List Str) → Apart [] new
unfolding str_in
no_ids [] = tt
no_ids (s ∷ new) = (refl, no_ids new)

-- Ids that are remembered are remembered as they are.
pub remember_all_id : (ids : List Str) → AreIds ids → remember_all [] ids ≡ ids
remember_all_id ids h = remember_all-new [] ids h (no_ids ids)

pub stripped_id : (ids : List Str) → AreIds ids → stripped ids ≡ ids
unfolding stripped
stripped_id [] h = refl
stripped_id (s ∷ ids) h = rw (h.0.0.0, h.0.0.1) (ap (◌∷◌ s) (stripped_id ids (h.0.1, h.1.1)))

-- The cut
drop-AreIds : (n : ℕ) (ids : List Str) → AreIds ids → AreIds (drop n ids)
unfolding drop
drop-AreIds zero ids h = h
drop-AreIds (suc n) [] h = h
drop-AreIds (suc n) (s ∷ ids) h = drop-AreIds n ids (h.0.1, h.1.1)

pub cut_seen-AreIds : (ids : List Str) → AreIds ids → AreIds (cut_seen ids)
unfolding cut_seen last_slice
cut_seen-AreIds ids h =
    if_rule AreIds (ltb max_seen_group_msg_ids (length ids)) (drop (length ids - 4096) ids) ids
      (λ _. drop-AreIds (length ids - 4096) ids h) (λ _. h)

pub cut_seen-length : (ids : List Str) → length (cut_seen ids) ≤ 4096
unfolding cut_seen last_slice
cut_seen-length ids =
    if_rule (λ (l : List Str). length l ≤ 4096) (ltb max_seen_group_msg_ids (length ids))
      (drop (length ids - 4096) ids) ids (λ _. omega (arith, length-drop (length ids - 4096) ids))
      (λ e. ground arith)

pub cut_seen_id : (ids : List Str) → length ids ≤ 4096 → cut_seen ids ≡ ids
unfolding cut_seen
cut_seen_id ids h = ground arith
