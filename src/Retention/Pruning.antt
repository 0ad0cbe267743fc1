-- ===== src/Retention/Pruning.antt =====
-- What retention keeps: every system message, and how many entries.
use i2pchat.Prelude.{
  ℕ, zero, suc, ◌+◌, ◌-◌, ◌≡◌, refl, ◌∙◌, sym, ap, Bool, ◌&&◌, ◌||◌, not, Option, none, some, List,
  [], ◌∷◌, ◌++◌, arith, ltb, leb, ◌==◌, if◌then◌else◌, length, keep, drop, min, length-append,
  length-drop, if_rule, option_rule,
}
use i2pchat.Text.{Str}
use i2pchat.Sorting.{count, count-sort, length-sort}
use i2pchat.Retention.{
  HistoryEntry, RetentionPolicy, is_system, last_slice, recent, no_later, prune_by_count,
  prune_by_age, age_cutoff, entry_ts, limit_count, apply_retention,
}

module _ {ℓ} {A : Type ℓ} where
  count-append : (p : A → Bool) (xs ys : List A) → count p (xs ++ ys) ≡ count p xs + count p ys
  unfolding keep
  count-append p [] ys = omega arith
  count-append p (x ∷ xs) ys = ground (arith, count-append p xs ys)

  count-split : (p : A → Bool) (xs : List A) → length xs ≡ count p xs + count (λ x. not (p x)) xs
  unfolding keep
  count-split p [] = omega arith
  count-split p (x ∷ xs) = ground (arith, count-split p xs)

  -- Counting again under a test that was kept
  count-keep :
      (p q : A → Bool) (xs : List A)
      → count (λ x. p x && q x) (keep p xs) ≡ count (λ x. p x && q x) xs
  unfolding keep
  count-keep p q [] = refl
  count-keep p q (x ∷ xs) = ground (arith, count-keep p q xs)

  count-drop_apart :
      (p q : A → Bool) (n : ℕ) (xs : List A)
      → count (λ x. p x && q x) xs ≡ 0
      → count (λ x. p x && q x) (drop n xs) ≡ 0
  unfolding keep drop
  count-drop_apart p q zero xs h = h
  count-drop_apart p q (suc n) [] h = refl
  count-drop_apart p q (suc n) (x ∷ xs) h = count-drop_apart p q n xs (ground arith)

  count-apart :
      (p q : A → Bool) (xs : List A) → count (λ x. p x && q x) (keep (λ x. not (p x)) xs) ≡ 0
  unfolding keep
  count-apart p q [] = refl
  count-apart p q (x ∷ xs) = ground (arith, count-apart p q xs)

  -- What passes the first test also passes it after a wider one.
  count-wider :
      (p q w : A → Bool) (xs : List A)
      → count (λ x. p x && q x) (keep (λ x. p x || w x) xs) ≡ count (λ x. p x && q x) xs
  unfolding keep
  count-wider p q w [] = refl
  count-wider p q w (x ∷ xs) = ground (arith, count-wider p q w xs)

  length-last_slice :
      (n : ℕ) (xs : List A)
      → length (last_slice n xs) ≡ (if n == 0 then length xs else min n (length xs))
  unfolding last_slice
  length-last_slice n xs = ground (arith, length-drop (length xs - n) xs)

module _ (from_iso : Str → Option ℕ) where
  length-recent :
      (n : ℕ) (xs : List HistoryEntry)
      → length (recent from_iso n xs) ≡ (if n == 0 then length xs else min n (length xs))
  unfolding recent
  length-recent n xs = ground (arith, length-last_slice n xs)

  recent-apart :
      (q : HistoryEntry → Bool) (n : ℕ) (es : List HistoryEntry)
      → count (λ e. is_system e && q e) (recent from_iso n (keep (λ e. not (is_system e)) es)) ≡ 0
  unfolding recent last_slice
  recent-apart q n es =
      let ns = keep (λ e. not (is_system e)) es in
      if_rule (λ r. count (λ e. is_system e && q e) r ≡ 0) (ltb n (length ns)) (last_slice n ns) ns
        (λ _.
          if_rule (λ r. count (λ e. is_system e && q e) r ≡ 0) (n == 0) ns (drop (length ns - n) ns)
            (λ _. count-apart is_system q es)
            (λ _. count-drop_apart is_system q (length ns - n) ns (count-apart is_system q es)))
        (λ _. count-apart is_system q es)

  -- Pruning to `n` entries leaves `n`, or all where they are fewer, when there are fewer than `n` system
  -- messages. Otherwise it removes nothing at all: the slice `[-0:]` is the whole list.
  pub prune_by_count-length :
      (es : List HistoryEntry) (n : ℕ)
      → length (prune_by_count from_iso es n)
        ≡ (if ltb (count is_system es) n then min n (length es) else length es)
  unfolding prune_by_count
  prune_by_count-length es n =
      let k = n - count is_system es in
      let ns = keep (λ e. not (is_system e)) es in
      length-sort (no_later from_iso) (keep is_system es ++ recent from_iso k ns)
      ∙ ground (
        arith,
        length-append (keep is_system es) (recent from_iso k ns),
        length-recent k ns,
        count-split is_system es,
      )

  prune_by_count-system :
      (q : HistoryEntry → Bool) (es : List HistoryEntry) (n : ℕ)
      → count (λ e. is_system e && q e) (prune_by_count from_iso es n)
        ≡ count (λ e. is_system e && q e) es
  unfolding prune_by_count
  prune_by_count-system q es n =
      let k = n - count is_system es in
      let ns = keep (λ e. not (is_system e)) es in
      count-sort (no_later from_iso) (λ e. is_system e && q e)
        (keep is_system es ++ recent from_iso k ns)
      ∙ count-append (λ e. is_system e && q e) (keep is_system es) (recent from_iso k ns)
      ∙ omega (arith, count-keep is_system q es, recent-apart q k es)

  limit_count-system :
      (q : HistoryEntry → Bool) (limit : Option ℕ) (es : List HistoryEntry)
      → count (λ e. is_system e && q e) (limit_count from_iso limit es)
        ≡ count (λ e. is_system e && q e) es
  unfolding limit_count
  limit_count-system q none es = refl
  limit_count-system q (some n) es =
      if_rule (λ r. count (λ e. is_system e && q e) r ≡ count (λ e. is_system e && q e) es)
        (ltb n (length es)) (prune_by_count from_iso es n) es (λ _. prune_by_count-system q es n)
        (λ _. refl)

  -- A result, where there is one, counts the system messages of `es`.
  abbrev Counts : (HistoryEntry → Bool) → List HistoryEntry → Option (List HistoryEntry) → Type 0
  Counts q es o =
      (r : List HistoryEntry)
      → o ≡ some r
      → count (λ e. is_system e && q e) r ≡ count (λ e. is_system e && q e) es

  Counts-some :
      (q : HistoryEntry → Bool) (es xs : List HistoryEntry)
      → count (λ e. is_system e && q e) xs ≡ count (λ e. is_system e && q e) es
      → Counts q es (some xs)
  Counts-some q es xs c r h = sym (ap (count (λ e. is_system e && q e)) (cc h)) ∙ c

  Counts-none : (q : HistoryEntry → Bool) (es : List HistoryEntry) → Counts q es none
  Counts-none q es r h = absurd (cc h)

  prune_by_age-system :
      (q : HistoryEntry → Bool) (now : ℕ) (days : Option ℕ) (es : List HistoryEntry)
      → Counts q es (prune_by_age from_iso now days es)
  unfolding prune_by_age
  prune_by_age-system q now none es = Counts-some q es es refl
  prune_by_age-system q now (some days) es =
      option_rule (Counts q es) (age_cutoff now days) none
        (λ cutoff. some (keep (λ e. is_system e || leb cutoff (entry_ts from_iso e)) es))
        (λ _. Counts-none q es)
        (λ cutoff _.
          Counts-some q es _ (count-wider is_system q (λ e. leb cutoff (entry_ts from_iso e)) es))

  -- Where retention returns a list, every system message is in it as often as before, whatever the limits.
  pub apply_retention-system :
      (now : ℕ) (es r : List HistoryEntry) (policy : RetentionPolicy) (q : HistoryEntry → Bool)
      → apply_retention from_iso now es policy ≡ some r
      → count (λ e. is_system e && q e) r ≡ count (λ e. is_system e && q e) es
  unfolding apply_retention
  apply_retention-system now [] r policy q = Counts-some q [] [] refl r
  apply_retention-system now (e ∷ es) r policy q =
      option_rule (Counts q (e ∷ es)) (prune_by_age from_iso now policy.max_age_days (e ∷ es)) none
        (λ result. some (limit_count from_iso policy.max_messages result))
        (λ _. Counts-none q (e ∷ es))
        (λ result found. Counts-some q (e ∷ es) _ (
          limit_count-system q policy.max_messages result
          ∙ prune_by_age-system q now policy.max_age_days (e ∷ es) result found))
        r
