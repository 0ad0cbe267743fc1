-- ===== src/Text/Case.antt =====
-- `str.lower()`, which maps by the Unicode tables: an interface, and its ASCII part as an instance.
use i2pchat.Prelude.{
  ℕ, ◌+◌, ◌<◌, ◌≡◌, refl, ap, ◌∙◌, ◌&&◌, [], ◌∷◌, map, arith, leb, if◌then◌else◌, All,
}
use i2pchat.Text.{Str}
use i2pchat.Text.Strip.{strip, is_space, strip_idem, strip-map}

unfoldable pub ascii_lower : ℕ → ℕ
ascii_lower c = if leb b'A' c && leb c b'Z' then c + 32 else c

-- What the program relies on: ASCII is mapped by its table, mapping twice adds nothing, and no
-- mapping makes or removes white space at an end.
pub record CaseMapping : Type 0 where
  pub lower : Str → Str
  pub lower_ascii : (s : Str) → All (λ c. c < 128) s → lower s ≡ map ascii_lower s
  pub lower_idem : (s : Str) → lower (lower s) ≡ lower s
  pub strip_lower_strip : (s : Str) → strip (lower (strip s)) ≡ lower (strip s)

ascii_lower_idem : (c : ℕ) → ascii_lower (ascii_lower c) ≡ ascii_lower c
unfolding ascii_lower
ascii_lower_idem c = ground arith

is_space-ascii_lower : (c : ℕ) → is_space (ascii_lower c) ≡ is_space c
unfolding ascii_lower is_space
is_space-ascii_lower c = ground arith

pub map-ascii_lower_idem : (s : Str) → map ascii_lower (map ascii_lower s) ≡ map ascii_lower s
map-ascii_lower_idem [] = refl
map-ascii_lower_idem (c ∷ s) = cc (ascii_lower_idem c, map-ascii_lower_idem s)

pub strip-map-strip : (s : Str) → strip (map ascii_lower (strip s)) ≡ map ascii_lower (strip s)
strip-map-strip s =
    strip-map ascii_lower is_space-ascii_lower (strip s) ∙ ap (map ascii_lower) (strip_idem s)

-- The ASCII part alone: every other character stands for itself.
abbrev pub ascii : CaseMapping
ascii = record {
  lower = map ascii_lower;
  lower_ascii = λ s h. refl;
  lower_idem = map-ascii_lower_idem;
  strip_lower_strip = strip-map-strip;
}
