-- ===== src/Groups/Store/Rotation.antt =====
-- The ids that a long history brings back, in `_resolve_seen_msg_ids` of i2pchat/storage/group_store.py.
use i2pchat.Prelude.{
  ◌-◌, ◌≡◌, Bool-cases, inl, inr, refl, ap, ◌∙◌, true, false, List, [], ◌∷◌, ◌++◌, arith, length,
  drop, length-append, ltb, All, map, is_empty,
}
use i2pchat.Text.{Str, str_eq_refl, str_in, Distinct}
use i2pchat.Text.Strip.{strip}
use i2pchat.Retention.{last_slice}
use i2pchat.Groups.Store.Models.{GroupHistoryEntry}
use i2pchat.Groups.Store.Conversation.{
  entry_id, resolve_seen_msg_ids, remember, remember_all, cut_seen,
}
use i2pchat.Groups.Store.SeenIds.{
  AreIds, IsKnown, Apart, remember_all_id, remember_all-known, remember_all-new, str_in-append,
}

remember_all-append :
    (ids xs ys : List Str) → remember_all ids (xs ++ ys) ≡ remember_all (remember_all ids xs) ys
unfolding remember_all
remember_all-append ids [] ys = refl
remember_all-append ids (x ∷ xs) ys = remember_all-append (remember ids x) xs ys

Distinct-left : (xs ys : List Str) → Distinct (xs ++ ys) → Distinct xs
Distinct-left [] ys d = tt
Distinct-left (x ∷ xs) ys d = (ground (arith, str_in-append x xs ys), Distinct-left xs ys d.1)

All-left : (P : Str → Type 0) (xs ys : List Str) → All P (xs ++ ys) → All P xs
All-left P [] ys h = tt
All-left P (x ∷ xs) ys h = (h.0, All-left P xs ys h.1)

-- Ids of two halves of a list of distinct ids
AreIds-left : (xs ys : List Str) → AreIds (xs ++ ys) → AreIds xs
AreIds-left xs ys h = (All-left _ xs ys h.0, Distinct-left xs ys h.1)

AreIds-right : (xs ys : List Str) → AreIds (xs ++ ys) → AreIds ys
AreIds-right [] ys h = h
AreIds-right (x ∷ xs) ys h = AreIds-right xs ys (h.0.1, h.1.1)

Apart-halves : (xs ys : List Str) → Distinct (xs ++ ys) → Apart ys xs
Apart-halves [] ys d = tt
Apart-halves (x ∷ xs) ys d = (ground (arith, str_in-append x xs ys), Apart-halves xs ys d.1)

All-IsKnown :
    (ids new : List Str)
    → All (λ s. (strip s ≡ s) × (is_empty s ≡ false)) new
    → ((s : Str) → str_in s new ≡ true → str_in s ids ≡ true)
    → All (IsKnown ids) new
unfolding str_in
All-IsKnown ids [] h f = tt
All-IsKnown ids (s ∷ new) h f = (
  rw (h.0.0, h.0.1) (f s (ground (arith, str_eq_refl s))),
  All-IsKnown ids new h.1 (λ t e. f t (ground arith)),
)

resolve-halves :
    (older newest : List Str)
    → AreIds (older ++ newest)
    → remember_all (remember_all [] newest) (older ++ newest) ≡ newest ++ older
resolve-halves older newest ok =
    let right = AreIds-right older newest ok in
    rw (remember_all_id newest right) (
      remember_all-append newest older newest
      ∙ ap (λ ids. remember_all ids newest)
          (remember_all-new newest older (AreIds-left older newest ok)
            (Apart-halves older newest ok.1))
      ∙ remember_all-known (newest ++ older) newest (
          All-IsKnown (newest ++ older) newest right.0
            (λ s e. ground (arith, str_in-append s newest older))))

-- Where the ids of a history are distinct and the last 4096 of them are remembered, resolving them again gives
-- the remembered ids with the older ones behind them, cut at the front by as many as there are older ones: each
-- older id takes the place of another, and with 4096 older ones or more no remembered id is left.
pub resolve_seen-rotates :
    (history : List GroupHistoryEntry) (older newest : List Str)
    → map entry_id history ≡ older ++ newest
    → AreIds (older ++ newest)
    → length newest ≡ 4096
    → resolve_seen_msg_ids history newest ≡ drop (length older) (newest ++ older)
unfolding resolve_seen_msg_ids cut_seen last_slice drop
resolve_seen-rotates history older newest same ok full =
    rw (same, resolve-halves older newest ok)
      (elim (Bool-cases (ltb 4096 (length (newest ++ older)))) [
        | inl many ↦ rw (many, beyond) refl
        | inr short ↦ rw short (none_older older short)
      ])
  where
    beyond : length (newest ++ older) - 4096 ≡ length older
    beyond = omega (arith, length-append newest older)

    none_older :
        (older : List Str)
        → ltb 4096 (length (newest ++ older)) ≡ false
        → newest ++ older ≡ drop (length older) (newest ++ older)
    none_older [] h = refl
    none_older (x ∷ xs) h = absurd (ground (arith, length-append newest (x ∷ xs)))
