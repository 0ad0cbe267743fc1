-- ===== src/Dict/Keys.antt =====
-- Dictionaries in which no key stands twice.
use i2pchat.Prelude.{◌≡◌, refl, ap, false, ◌||◌, [], ◌∷◌, ◌++◌, arith, Bool-cases, inl, inr}
use i2pchat.Text.{Str, str_eq, str_eq_iff, str_in, Distinct}
use i2pchat.Dict.{Dict, put, keys}

module _ {ℓ} {V : Type ℓ} where
  pub str_in-keys-put :
      (j k : Str) (v : V) (d : Dict V)
      → str_in j (keys (put k v d)) ≡ str_eq k j || str_in j (keys d)
  unfolding put str_in
  str_in-keys-put j k v [] = ground arith
  str_in-keys-put j k v ((i, w) ∷ d) =
      ground (arith, str_eq_iff i k, str_eq_iff i j, str_eq_iff k j, str_in-keys-put j k v d)

  pub put-Distinct :
      (k : Str) (v : V) (d : Dict V) → Distinct (keys d) → Distinct (keys (put k v d))
  unfolding put str_in
  put-Distinct k v [] h = (refl, tt)
  put-Distinct k v ((j, w) ∷ d) h = elim (Bool-cases (str_eq j k)) [
    | inl e ↦ rw e h
    | inr e ↦ rw e (
      ground (arith, str_eq_iff j k, str_eq_iff k j, str_in-keys-put j k v d),
      put-Distinct k v d h.1,
    )
  ]

  -- A new key goes to the end.
  pub put-new :
      (k : Str) (v : V) (d : Dict V) → str_in k (keys d) ≡ false → put k v d ≡ d ++ (k, v) ∷ []
  unfolding put str_in
  put-new k v [] h = refl
  put-new k v ((j, w) ∷ d) h = elim (Bool-cases (str_eq j k)) [
    | inl e ↦ absurd (ground arith)
    | inr e ↦ rw e (ap (◌∷◌ (j, w)) (put-new k v d (ground arith)))
  ]
