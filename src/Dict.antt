-- ===== src/Dict.antt =====
-- Python's `dict` with text keys, in insertion order: an update keeps the place of its key.
pub mod Keys
use i2pchat.Prelude.{
  ◌≡◌, refl, ap, Bool, false, Option, none, some, List, [], ◌∷◌, ◌++◌, arith, if◌then◌else◌, ◌||◌,
  is_some, Bool-cases, inl, inr, subst, sym, true, if_rule, ◌∙◌,
}
use i2pchat.Text.{Str, str_eq, str_eq_iff, str_eq_refl}

abbrev pub Dict {ℓ} : Type ℓ → Type ℓ
Dict V = List (Str × V)

module _ {ℓ} {V : Type ℓ} where
  -- `d.get(k)`
  unfoldable pub lookup : Str → Dict V → Option V
  lookup k [] = none
  lookup k ((j, v) ∷ d) = if str_eq j k then some v else lookup k d

  -- `k in d`
  abbrev pub has_key : Str → Dict V → Bool
  has_key k d = is_some (lookup k d)

  -- `d[k] = v`
  unfoldable pub put : Str → V → Dict V → Dict V
  put k v [] = (k, v) ∷ []
  put k v ((j, w) ∷ d) = if str_eq j k then (j, v) ∷ d else (j, w) ∷ put k v d

  -- `d.pop(k, None)`
  unfoldable pub pop : Str → Dict V → Dict V
  pop k [] = []
  pop k ((j, v) ∷ d) = let rest = pop k d in if str_eq j k then rest else (j, v) ∷ rest

  -- `any(p(v) for v in d.values())`
  unfoldable pub any_value : (V → Bool) → Dict V → Bool
  any_value p [] = false
  any_value p ((k, v) ∷ d) = p v || any_value p d

  -- `d.keys()`
  abbrev pub keys : Dict V → List Str
  keys [] = []
  keys ((k, v) ∷ d) = k ∷ keys d

  -- Every entry satisfies `P`.
  abbrev pub Entries {κ} : (Str → V → Type κ) → Dict V → Type κ
  Entries P [] = Unit
  Entries P ((k, v) ∷ d) = P k v × Entries P d

  pub lookup-put :
      (k j : Str) (v : V) (d : Dict V)
      → lookup j (put k v d) ≡ (if str_eq k j then some v else lookup j d)
  unfolding lookup put
  lookup-put k j v [] = refl
  lookup-put k j v ((i, w) ∷ d) =
      ground (arith, str_eq_iff k j, str_eq_iff i k, str_eq_iff i j, lookup-put k j v d)

  pub lookup-pop :
      (k j : Str) (d : Dict V) → lookup j (pop k d) ≡ (if str_eq k j then none else lookup j d)
  unfolding lookup pop
  lookup-pop k j [] = ground arith
  lookup-pop k j ((i, w) ∷ d) =
      ground (arith, str_eq_iff k j, str_eq_iff i k, str_eq_iff i j, lookup-pop k j d)

  pub Entries-put {κ} :
      (P : Str → V → Type κ) (k : Str) (v : V) (d : Dict V)
      → P k v
      → Entries P d
      → Entries P (put k v d)
  unfolding put
  Entries-put P k v [] p h = (p, tt)
  Entries-put P k v ((j, w) ∷ d) p h = elim (Bool-cases (str_eq j k)) [
    | inl e ↦ rw e (subst (λ i. P i v) (sym ((str_eq_iff j k).0 e)) p, h.1)
    | inr e ↦ rw e (h.0, Entries-put P k v d p h.1)
  ]

  pub Entries-pop {κ} :
      (P : Str → V → Type κ) (k : Str) (d : Dict V) → Entries P d → Entries P (pop k d)
  unfolding pop
  Entries-pop P k [] h = tt
  Entries-pop P k ((j, w) ∷ d) h = elim (Bool-cases (str_eq j k)) [
    | inl e ↦ rw e (Entries-pop P k d h.1)
    | inr e ↦ rw e (h.0, Entries-pop P k d h.1)
  ]

  pub Entries-lookup {κ} :
      (P : Str → V → Type κ) (k : Str) (v : V) (d : Dict V)
      → Entries P d
      → lookup k d ≡ some v
      → P k v
  unfolding lookup
  Entries-lookup P k v [] h e = cc
  Entries-lookup P k v ((j, w) ∷ d) h e = elim (Bool-cases (str_eq j k)) [
    | inl same ↦
        let w≡v : w ≡ v = ground arith in
        subst (P k) w≡v (subst (λ i. P i w) ((str_eq_iff j k).0 same) h.0)
    | inr other ↦ Entries-lookup P k v d h.1 (ground arith)
  ]

  -- A write to an entry that is there moves no key.
  pub keys-put : (k : Str) (v w : V) (d : Dict V) → lookup k d ≡ some w → keys (put k v d) ≡ keys d
  unfolding lookup put
  keys-put k v w [] e = cc
  keys-put k v w ((j, x) ∷ d) e = elim (Bool-cases (str_eq j k)) [
    | inl same ↦ rw same
    | inr other ↦ rw other (ap (◌∷◌ j) (keys-put k v w d (ground arith)))
  ]

  pub any_value-put :
      (p : V → Bool) (k : Str) (v w : V) (d : Dict V)
      → lookup k d ≡ some w
      → p v ≡ p w
      → any_value p (put k v d) ≡ any_value p d
  unfolding lookup put any_value
  any_value-put p k v w [] e same = cc
  any_value-put p k v w ((j, x) ∷ d) e same = ground (arith, any_value-put p k v w d)

  pub any_value-put_new :
      (p : V → Bool) (k : Str) (v : V) (d : Dict V)
      → lookup k d ≡ none
      → p v ≡ false
      → any_value p (put k v d) ≡ any_value p d
  unfolding lookup put any_value
  any_value-put_new p k v [] e no_v = ground arith
  any_value-put_new p k v ((j, x) ∷ d) e no_v = ground (arith, any_value-put_new p k v d)

  -- A new key goes to the end.
  pub keys-put_new :
      (k : Str) (v : V) (d : Dict V) → lookup k d ≡ none → keys (put k v d) ≡ keys d ++ k ∷ []
  unfolding lookup put
  keys-put_new k v [] e = refl
  keys-put_new k v ((j, x) ∷ d) e = elim (Bool-cases (str_eq j k)) [
    | inl same ↦ absurd (ground arith)
    | inr other ↦ rw other (ap (◌∷◌ j) (keys-put_new k v d (ground arith)))
  ]

pub has_key-put {ℓ} :
    {V : Type ℓ} (r k : Str) (v : V) (d : Dict V)
    → has_key r d ≡ true
    → has_key r (put k v d) ≡ true
has_key-put r k v d h =
    ap is_some (lookup-put k r v d)
    ∙ if_rule (λ o. is_some o ≡ true) (str_eq k r) (some v) (lookup r d) (λ _. refl) (λ _. h)

pub has_key-put_self {ℓ} :
    {V : Type ℓ} (k : Str) (v : V) (d : Dict V) → has_key k (put k v d) ≡ true
has_key-put_self k v d =
    ap is_some (lookup-put k k v d) ∙ ap is_some {y = some v} (rw (str_eq_refl k))
