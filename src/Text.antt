-- ===== src/Text.antt =====
-- Python's `str` as the list of its code points: equality, `strip`, suffixes. Case mapping is the
-- interface `CaseMapping`.
pub mod Strip
pub mod Case
pub mod Order
use Prim.Native.Char.{code}
use Prim.Native.String
use i2pchat.Prelude.{
  ℕ, String, ◌≡◌, refl, ap, ◌↔◌, Bool, true, false, ◌&&◌, List, [], ◌∷◌, arith, ◌==◌, ==_iff,
  if◌then◌else◌, Bool-cases, Option, none, some, ◌⊎◌, inl, inr,
}

abbrev pub Str : Type 0
Str = List ℕ

-- The code points of a literal.
abbrev pub codes : String → Str
codes String.[] = []
codes (String.◌∷◌ c s) = code c ∷ codes s

-- `a == b` of two texts
unfoldable pub str_eq : Str → Str → Bool
str_eq [] [] = true
str_eq (a ∷ s) (b ∷ t) = (a == b) && str_eq s t
str_eq _ _ = false

str_eq→eq : (s t : Str) → str_eq s t ≡ true → s ≡ t
unfolding str_eq
str_eq→eq [] [] h = refl
str_eq→eq [] (b ∷ t) h = ground arith
str_eq→eq (a ∷ s) [] h = ground arith
str_eq→eq (a ∷ s) (b ∷ t) h = ground (arith, str_eq→eq s t)

pub str_eq_refl : (s : Str) → str_eq s s ≡ true
unfolding str_eq
str_eq_refl [] = refl
str_eq_refl (a ∷ s) = ground (arith, str_eq_refl s)

eq→str_eq : (s t : Str) → s ≡ t → str_eq s t ≡ true
eq→str_eq s t h = rw h (str_eq_refl t)

pub str_eq_iff : (s t : Str) → (str_eq s t ≡ true) ↔ (s ≡ t)
str_eq_iff s t = (str_eq→eq s t, eq→str_eq s t)

-- `x in {…}` for a set of texts
unfoldable pub str_in : Str → List Str → Bool
str_in s [] = false
str_in s (t ∷ ts) = if str_eq t s then true else str_in s ts

-- `s.endswith(suffix)` and `s[:-len(suffix)]`: what stands before the suffix
unfoldable pub before_suffix? : Str → Str → Option Str
before_suffix? suffix [] = if str_eq [] suffix then some [] else none
before_suffix? suffix (c ∷ s) =
    if str_eq (c ∷ s) suffix
    then some []
    else elim (before_suffix? suffix s) [ none ↦ none | some r ↦ some (c ∷ r) ]

-- `s[len(prefix):]` where `s.startswith(prefix)`
unfoldable pub after_prefix? : Str → Str → Option Str
after_prefix? [] s = some s
after_prefix? (p ∷ prefix) [] = none
after_prefix? (p ∷ prefix) (c ∷ s) =
    let rest = after_prefix? prefix s in if p == c then rest else none

-- No text stands twice.
abbrev pub Distinct : List Str → Type 0
Distinct [] = Unit
Distinct (s ∷ ts) = (str_in s ts ≡ false) × Distinct ts
