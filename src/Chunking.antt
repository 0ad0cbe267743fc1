-- ===== src/Chunking.antt =====
-- i2pchat/protocol/chat_text_chunking.py: long texts in parts, cut at a line end, else at a space,
-- else at the limit.
pub mod Parts
use i2pchat.Prelude.{
  ℕ, zero, suc, ◌+◌, ◌/◌, max, Bool, true, false, Option, none, some, List, [], ◌∷◌, ltb, leb, ◌==◌,
  not, if◌then◌else◌, length, take, drop, keep, is_empty,
}
use i2pchat.Text.{Str}

-- `s.rfind(c)`: the last place of a character; `none` is -1.
unfoldable pub rfind : ℕ → Str → Option ℕ
rfind c [] = none
rfind c (x ∷ s) = elim (rfind c s) [
  | some i ↦ some (suc i)
  | none ↦ if x == c then some 0 else none
]

-- The place of a break that is not too near to the start: `nl >= min_lookback`
unfoldable pub break_place : ℕ → Option ℕ → Option ℕ
break_place min_lookback none = none
break_place min_lookback (some i) = if leb min_lookback i then some i else none

-- One round of the loop on a text over the limit: the part, and what remains
unfoldable pub cut : ℕ → ℕ → Str → Str × Str
cut max_chars min_lookback remaining =
    let window = take max_chars remaining in
    elim (break_place min_lookback (rfind 10 window)) [
      | some nl ↦ (take (nl + 1) remaining, drop (nl + 1) remaining)
      | none ↦ elim (break_place min_lookback (rfind 32 window)) [
        | some sp ↦ (take sp remaining, drop (sp + 1) remaining)
        | none ↦ (take max_chars remaining, drop max_chars remaining)
      ]
    ]

abbrev prepend : Str → Option (List Str) → Option (List Str)
prepend part none = none
prepend part (some parts) = some (part ∷ parts)

-- `while remaining:`, with fuel; `none` is a loop that has not ended.
unfoldable pub split_loop : ℕ → ℕ → ℕ → Str → Option (List Str)
split_loop zero max_chars min_lookback remaining = none
split_loop (suc fuel) max_chars min_lookback remaining = elim (is_empty remaining) [
  | true ↦ some []
  | false ↦ elim (leb (length remaining) max_chars) [
    | true ↦ some (remaining ∷ [])
    | false ↦
        let (part, rest) = cut max_chars min_lookback remaining in
        prepend part (split_loop fuel max_chars min_lookback rest)
  ]
]

pub data Result {ℓ} (A : Type ℓ) : Type ℓ where
  ok : A → Result A
  value_error : Result A
  unfinished : Result A

-- `[p for p in parts if p]`
unfoldable pub finish : Option (List Str) → Result (List Str)
finish none = unfinished
finish (some parts) = ok (keep (λ p. not (is_empty p)) parts)

-- The length of the text and one more is fuel enough.
unfoldable pub split_long_chat_text : Str → ℕ → Result (List Str)
split_long_chat_text text max_chars =
    if ltb max_chars 32
    then value_error
    else if is_empty text
    then ok []
    else if leb (length text) max_chars
    then ok (text ∷ [])
    else finish (split_loop (suc (length text)) max_chars (max 1 (max_chars / 4)) text)
