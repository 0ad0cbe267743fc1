-- ===== src/Text/Strip.antt =====
-- `str.strip()`: Python's white space, and what stripping twice does.
use i2pchat.Prelude.{
  ℕ, ◌≡◌, refl, ap, Bool, true, false, ◌&&◌, ◌||◌, [], ◌∷◌, arith, ◌==◌, leb, if◌then◌else◌,
  is_empty, Bool-cases, inl, inr, ◌∙◌, map,
}
use i2pchat.Text.{Str}

-- `str.isspace` of one character
unfoldable pub is_space : ℕ → Bool
is_space c =
    (leb 9 c && leb c 13)
    || (leb 28 c && leb c 32)
    || (c == 0x85)
    || (c == 0xa0)
    || (c == 0x1680)
    || (leb 0x2000 c && leb c 0x200a)
    || (c == 0x2028)
    || (c == 0x2029)
    || (c == 0x202f)
    || (c == 0x205f)
    || (c == 0x3000)

unfoldable pub lstrip : Str → Str
lstrip [] = []
lstrip (c ∷ s) = if is_space c then lstrip s else c ∷ s

unfoldable pub rstrip : Str → Str
rstrip [] = []
rstrip (c ∷ s) = let r = rstrip s in if is_space c && is_empty r then [] else c ∷ r

unfoldable pub strip : Str → Str
unfolding lstrip rstrip
strip s = rstrip (lstrip s)

rstrip_idem : (s : Str) → rstrip (rstrip s) ≡ rstrip s
unfolding rstrip
rstrip_idem [] = refl
rstrip_idem (c ∷ s) = elim (Bool-cases (is_space c && is_empty (rstrip s))) [
  | inl e ↦ rw e
  | inr e ↦ rw e (rw (rstrip_idem s) (rw e))
]

lstrip-rstrip : (s : Str) → lstrip (rstrip (lstrip s)) ≡ rstrip (lstrip s)
unfolding lstrip rstrip
lstrip-rstrip [] = refl
lstrip-rstrip (c ∷ s) = elim (Bool-cases (is_space c)) [
  | inl e ↦ rw e (lstrip-rstrip s)
  | inr e ↦ rw e (rw e (rw e))
]

-- Stripping twice is stripping once.
pub strip_idem : (s : Str) → strip (strip s) ≡ strip s
unfolding strip
strip_idem s = ap rstrip (lstrip-rstrip s) ∙ rstrip_idem (lstrip s)

-- A text with no white space is left alone.
unfoldable pub no_space : Str → Bool
no_space [] = true
no_space (c ∷ s) = if is_space c then false else no_space s

rstrip_id : (s : Str) → no_space s ≡ true → rstrip s ≡ s
unfolding rstrip no_space
rstrip_id [] h = refl
rstrip_id (c ∷ s) h = ground (arith, rstrip_id s)

lstrip_id : (s : Str) → no_space s ≡ true → lstrip s ≡ s
unfolding lstrip no_space
lstrip_id [] h = refl
lstrip_id (c ∷ s) h = ground arith

pub strip_id : (s : Str) → no_space s ≡ true → strip s ≡ s
unfolding strip
strip_id s h = rw (lstrip_id s h) (rstrip_id s h)

-- A character map that respects white space commutes with stripping.
module _ (f : ℕ → ℕ) (keeps : (c : ℕ) → is_space (f c) ≡ is_space c) where
  lstrip-map : (s : Str) → lstrip (map f s) ≡ map f (lstrip s)
  unfolding lstrip
  lstrip-map [] = refl
  lstrip-map (c ∷ s) =
      rw (keeps c) (elim (Bool-cases (is_space c)) [ inl e ↦ rw e (lstrip-map s) | inr e ↦ rw e ])

  is_empty-map : (s : Str) → is_empty (map f s) ≡ is_empty s
  is_empty-map [] = refl
  is_empty-map (c ∷ s) = refl

  rstrip-map : (s : Str) → rstrip (map f s) ≡ map f (rstrip s)
  unfolding rstrip
  rstrip-map [] = refl
  rstrip-map (c ∷ s) =
      rw (keeps c, rstrip-map s, is_empty-map (rstrip s))
        (elim (Bool-cases (is_space c && is_empty (rstrip s))) [ inl e ↦ rw e | inr e ↦ rw e ])

  pub strip-map : (s : Str) → strip (map f s) ≡ map f (strip s)
  unfolding strip
  strip-map s = rw (lstrip-map s) (rstrip-map (lstrip s))
