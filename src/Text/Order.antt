-- ===== src/Text/Order.antt =====
-- `<=` on texts, by code points, and `int(text)`.
use i2pchat.Prelude.{
  ℕ, ◌+◌, ◌*◌, ◌-◌, ◌≡◌, refl, Bool, true, false, ◌&&◌, Option, none, some, List, [], ◌∷◌, arith,
  ltb, leb, ◌==◌, if◌then◌else◌, ℤ, pos, negsuc,
}
use i2pchat.Text.{Str}
use i2pchat.Text.Strip.{strip}

unfoldable pub str_leb : Str → Str → Bool
str_leb [] t = true
str_leb (a ∷ s) [] = false
str_leb (a ∷ s) (b ∷ t) =
    let rest = str_leb s t in if ltb a b then true else if ltb b a then false else rest

pub str_leb-total : (s t : Str) → str_leb s t ≡ false → str_leb t s ≡ true
unfolding str_leb
str_leb-total [] t h = absurd (cc h)
str_leb-total (a ∷ s) [] h = refl
str_leb-total (a ∷ s) (b ∷ t) h = ground (arith, str_leb-total s t)

pub str_leb_trans : (r s t : Str) → str_leb r s ≡ true → str_leb s t ≡ true → str_leb r t ≡ true
unfolding str_leb
str_leb_trans [] s t h k = refl
str_leb_trans (a ∷ r) [] t h k = absurd (cc h)
str_leb_trans (a ∷ r) (b ∷ s) [] h k = absurd (cc k)
str_leb_trans (a ∷ r) (b ∷ s) (c ∷ t) h k = ground (arith, str_leb_trans r s t)

-- The zeros of the decimal digits of Unicode 14.0; each has its nine others behind it.
abbrev pub zeros : List ℕ
zeros =
    b'0' ∷ 0x660 ∷ 0x6F0 ∷ 0x7C0 ∷ 0x966 ∷ 0x9E6 ∷ 0xA66 ∷ 0xAE6 ∷ 0xB66 ∷ 0xBE6 ∷ 0xC66 ∷ 0xCE6
    ∷ 0xD66 ∷ 0xDE6 ∷ 0xE50 ∷ 0xED0 ∷ 0xF20 ∷ 0x1040 ∷ 0x1090 ∷ 0x17E0 ∷ 0x1810 ∷ 0x1946 ∷ 0x19D0
    ∷ 0x1A80 ∷ 0x1A90 ∷ 0x1B50 ∷ 0x1BB0 ∷ 0x1C40 ∷ 0x1C50 ∷ 0xA620 ∷ 0xA8D0 ∷ 0xA900 ∷ 0xA9D0
    ∷ 0xA9F0 ∷ 0xAA50 ∷ 0xABF0 ∷ 0xFF10 ∷ 0x104A0 ∷ 0x10D30 ∷ 0x11066 ∷ 0x110F0 ∷ 0x11136 ∷ 0x111D0
    ∷ 0x112F0 ∷ 0x11450 ∷ 0x114D0 ∷ 0x11650 ∷ 0x116C0 ∷ 0x11730 ∷ 0x118E0 ∷ 0x11950 ∷ 0x11C50
    ∷ 0x11D50 ∷ 0x11DA0 ∷ 0x16A60 ∷ 0x16AC0 ∷ 0x16B50 ∷ 0x1D7CE ∷ 0x1D7D8 ∷ 0x1D7E2 ∷ 0x1D7EC
    ∷ 0x1D7F6 ∷ 0x1E140 ∷ 0x1E2F0 ∷ 0x1E950 ∷ 0x1FBF0 ∷ []

-- `unicodedata.decimal`
unfoldable pub decimal_among : List ℕ → ℕ → Option ℕ
decimal_among [] c = none
decimal_among (zero_digit ∷ others) c =
    let later = decimal_among others c in
    if leb zero_digit c && leb c (zero_digit + 9) then some (c - zero_digit) else later

unfoldable pub decimal : ℕ → Option ℕ
decimal c = decimal_among zeros c

-- Digits, with single underscores between them; the flag tells that a digit came last.
unfoldable pub digits : ℕ → Bool → Str → Option ℕ
digits acc after_digit [] = if after_digit then some acc else none
digits acc after_digit (c ∷ s) =
    let skipped = digits acc false s in
    elim (decimal c) [
      | some d ↦ digits (acc * 10 + d) true s
      | none ↦ if (c == b'_') && after_digit then skipped else none
    ]

-- `-n`
unfoldable pub negated : ℕ → ℤ
negated n = if n == 0 then pos 0 else negsuc (n - 1)

unfoldable pub signed : Str → Option ℤ
signed [] = none
signed (c ∷ s) =
    if c == b'-'
    then elim (digits 0 false s) [ none ↦ none | some n ↦ some (negated n) ]
    else elim (digits 0 false (if c == b'+' then s else c ∷ s)) [
      | none ↦ none
      | some n ↦ some (pos n)
    ]

-- `int(text)`; `none` is the `ValueError`.
unfoldable pub parse_int : Str → Option ℤ
parse_int text = signed (strip text)
