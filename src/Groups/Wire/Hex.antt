-- ===== src/Groups/Wire/Hex.antt =====
-- Python's `bytes.hex` and `bytes.fromhex`, as i2pchat/groups/wire.py uses them, and that one undoes the other.
use i2pchat.Prelude.{
  ℕ, ◌+◌, ◌*◌, ◌-◌, ◌/◌, ◌%◌, ◌<◌, ◌≡◌, refl, Bool, false, ◌&&◌, ◌||◌, Option, none, some, List, [],
  ◌∷◌, arith, ltb, leb, ◌==◌, if◌then◌else◌, All,
}
use i2pchat.Text.{Str}

unfoldable pub hex_digit : ℕ → ℕ
hex_digit n = if ltb n 10 then b'0' + n else b'a' + (n - 10)

unfoldable pub to_hex : List ℕ → Str
to_hex [] = []
to_hex (b ∷ bs) = hex_digit (b / 16) ∷ hex_digit (b % 16) ∷ to_hex bs

unfoldable pub digit_value : ℕ → Option ℕ
digit_value c =
    if leb b'0' c && leb c b'9'
    then some (c - b'0')
    else if leb b'a' c && leb c b'f'
    then some (c - b'a' + 10)
    else if leb b'A' c && leb c b'F'
    then some (c - b'A' + 10)
    else none

unfoldable pub two_digits : ℕ → ℕ → Option ℕ
two_digits a b = elim (digit_value a) [
  | none ↦ none
  | some x ↦ elim (digit_value b) [ none ↦ none | some y ↦ some (x * 16 + y) ]
]

-- White space may stand between two bytes.
unfoldable pub is_ascii_space : ℕ → Bool
is_ascii_space c = (leb 9 c && leb c 13) || (c == 32)

unfoldable pub from_hex : Str → Option (List ℕ)
from_hex [] = some []
from_hex (a ∷ []) = if is_ascii_space a then some [] else none
from_hex (a ∷ b ∷ s) =
    let skipped = from_hex (b ∷ s) in
    let rest = from_hex s in
    if is_ascii_space a then skipped else elim (two_digits a b) [
      | none ↦ none
      | some n ↦ elim rest [ none ↦ none | some bs ↦ some (n ∷ bs) ]
    ]

digit_value-hex_digit : (n : ℕ) → n < 16 → digit_value (hex_digit n) ≡ some n
unfolding digit_value hex_digit
digit_value-hex_digit n h = ground arith

hex_digit-plain : (n : ℕ) → n < 16 → is_ascii_space (hex_digit n) ≡ false
unfolding is_ascii_space hex_digit
hex_digit-plain n h = ground arith

pub from_hex-to_hex : (bs : List ℕ) → All (λ b. b < 256) bs → from_hex (to_hex bs) ≡ some bs
unfolding from_hex to_hex two_digits
from_hex-to_hex [] h = refl
from_hex-to_hex (b ∷ bs) h =
    let low : b % 16 < 16 = omega arith in
    let high : b / 16 < 16 = omega (arith, h.0) in
    let whole : b / 16 * 16 + b % 16 ≡ b = omega arith in
    rw
      (
        hex_digit-plain (b / 16) high,
        digit_value-hex_digit (b / 16) high,
        digit_value-hex_digit (b % 16) low,
        from_hex-to_hex bs h.1,
        whole,
      )
      refl
