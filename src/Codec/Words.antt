-- ===== src/Codec/Words.antt =====
-- Big-endian words, as `struct` packs them.
use i2pchat.Prelude.{
  ℕ, zero, suc, ◌+◌, ◌*◌, ◌/◌, ◌%◌, ◌^◌, ◌<◌, ◌≡◌, refl, List, [], ◌∷◌, arith, length, ap, ◌∙◌, ◌≤◌,
}
use native.Mathlib.Nat.{
  pow-suc, one-le-pow, mod-one, mod-lt, mod-eq_of_lt, div-add-mod', mul-add-mod_self_right,
}

-- The low `w` bytes of a number, the highest first
unfoldable pub be_bytes : ℕ → ℕ → List ℕ
be_bytes zero x = []
be_bytes (suc w) x = (x / 256 ^ w % 256) ∷ be_bytes w x

be_from : ℕ → List ℕ → ℕ
be_from acc [] = acc
be_from acc (b ∷ bytes) = be_from (acc * 256 + b) bytes

unfoldable pub be_value : List ℕ → ℕ
unfolding be_from
be_value bytes = be_from 0 bytes

pub length-be_bytes : (w x : ℕ) → length (be_bytes w x) ≡ w
unfolding be_bytes
length-be_bytes zero x = refl
length-be_bytes (suc w) x = omega (arith, length-be_bytes w x)

-- One more byte in front: x % 256B is the byte above B, times B, and x % B.
mod_split : (b x : ℕ) → 0 < b → x % (b * 256) ≡ x / b % 256 * b + x % b
mod_split b x pos =
    let q = x / b in
    let low : ℕ = x / b % 256 * b + x % b in
    let whole : x / b * b + x % b ≡ x = div-add-mod' x b in
    let parts : q / 256 * 256 + q % 256 ≡ q = div-add-mod' q 256 in
    let r_lt : x % b < b = mod-lt x pos in
    let d_le : q % 256 * b ≤ 255 * b = grind arith in
    let fits : low < b * 256 = omega arith in
    let scaled : (q / 256 * 256 + q % 256) * b ≡ q * b = ap (λ n. n * b) parts in
    let sum : x ≡ q / 256 * (b * 256) + low = omega arith in
    ap (λ n. n % (b * 256)) sum ∙ mul-add-mod_self_right (q / 256) (b * 256) low ∙ mod-eq_of_lt fits

be_from-be_bytes : (w acc x : ℕ) → be_from acc (be_bytes w x) ≡ acc * 256 ^ w + x % 256 ^ w
unfolding be_from be_bytes
be_from-be_bytes zero acc x = omega (arith, mod-one x)
be_from-be_bytes (suc w) acc x =
    be_from-be_bytes w (acc * 256 + x / 256 ^ w % 256) x
    ∙ rw (pow-suc 256 w) (rw (mod_split (256 ^ w) x (one-le-pow w 256 (omega arith))) (omega arith))

-- Unpacking what was packed gives the number, if it fits the word.
pub be_value-be_bytes : (w x : ℕ) → x < 256 ^ w → be_value (be_bytes w x) ≡ x
unfolding be_value
be_value-be_bytes w x h = rw (be_from-be_bytes w 0 x) (omega (arith, mod-eq_of_lt h))
