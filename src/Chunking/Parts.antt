-- ===== src/Chunking/Parts.antt =====
-- The parts of a long text: short enough, not empty, and together the text.
use i2pchat.Prelude.{
  ℕ, zero, suc, ◌+◌, ◌/◌, ◌≤◌, ◌<◌, ◌≡◌, refl, ap, max, true, false, Option, none, some, List, [],
  ◌∷◌, ◌++◌, arith, ltb, leb, not, length, take, drop, append-nil, take-drop, length-take,
  length-drop, keep, is_empty, All, inl, inr, ◌⊎◌, if_rule, option_rule, bool_rule, leb→le,
}
use i2pchat.Text.{Str}
use i2pchat.Chunking.{
  rfind, break_place, cut, split_loop, Result, ok, value_error, finish, split_long_chat_text,
  prepend,
}

-- A text that is cut in parts: nothing is lost but the space at which a part ends.
pub data Joins : List Str → Str → Type 0 where
  done : Joins [] []
  whole :
      {parts : List Str} {rest text : Str} (part : Str)
      → Joins parts rest
      → part ++ rest ≡ text
      → Joins (part ∷ parts) text
  at_space :
      {parts : List Str} {rest text : Str} (part : Str)
      → Joins parts rest
      → part ++ 32 ∷ rest ≡ text
      → Joins (part ∷ parts) text

abbrev pub IsPart : ℕ → Str → Type 0
IsPart max_chars part = (0 < length part) × (length part ≤ max_chars)

rfind_lt : (c i : ℕ) (s : Str) → rfind c s ≡ some i → i < length s
unfolding rfind
rfind_lt c i [] e = cc
rfind_lt c zero (x ∷ s) e = omega arith
rfind_lt c (suc i) (x ∷ s) e = ground (arith, rfind_lt c i s)

rfind_splits :
    (c i m : ℕ) (s : Str) → rfind c (take m s) ≡ some i → take i s ++ c ∷ drop (suc i) s ≡ s
unfolding rfind take drop
rfind_splits c i zero s e = cc
rfind_splits c i (suc m) [] e = cc
rfind_splits c zero (suc m) (x ∷ s) e = ground arith
rfind_splits c (suc i) (suc m) (x ∷ s) e = ap (◌∷◌ x) (rfind_splits c i m s (ground arith))

-- What one round makes
record IsCut (max_chars : ℕ) (text part rest : Str) : Type 0 where
  part_ok : IsPart max_chars part
  shorter : length rest < length text
  glued : (part ++ rest ≡ text) ⊎ (part ++ 32 ∷ rest ≡ text)

break_place-some :
    (lookback i : ℕ) (o : Option ℕ)
    → break_place lookback o ≡ some i
    → (o ≡ some i) × (lookback ≤ i)
unfolding break_place
break_place-some lookback i none e = cc
break_place-some lookback i (some j) e = (ground arith, ground arith)

module _ (max_chars lookback : ℕ) (text : Str) (pos : 0 < lookback) (some_chars : 0 < max_chars)
    (long : max_chars < length text) where
  IsCutPair : Str × Str → Type 0
  IsCutPair r = IsCut max_chars text r.0 r.1

  cut_at_line :
      (nl : ℕ)
      → break_place lookback (rfind 10 (take max_chars text)) ≡ some nl
      → IsCutPair (take (nl + 1) text, drop (nl + 1) text)
  unfolding IsCutPair
  cut_at_line nl e =
      let (found, far) = break_place-some lookback nl _ e in
      let inside = rfind_lt 10 nl (take max_chars text) found in
      let window = length-take max_chars text in
      let l = length-take (nl + 1) text in
      let d = length-drop (nl + 1) text in
      record {
        part_ok = (omega arith, omega arith);
        shorter = omega arith;
        glued = inl (take-drop (nl + 1) text);
      }

  cut_at_space :
      (sp : ℕ)
      → break_place lookback (rfind 32 (take max_chars text)) ≡ some sp
      → IsCutPair (take sp text, drop (sp + 1) text)
  unfolding IsCutPair
  cut_at_space sp e =
      let (found, far) = break_place-some lookback sp _ e in
      let inside = rfind_lt 32 sp (take max_chars text) found in
      let window = length-take max_chars text in
      let l = length-take sp text in
      let d = length-drop (sp + 1) text in
      let next : sp + 1 ≡ suc sp = omega arith in
      record {
        part_ok = (omega arith, omega arith);
        shorter = omega arith;
        glued = inr (rw next (rfind_splits 32 sp max_chars text found));
      }

  cut_hard : IsCutPair (take max_chars text, drop max_chars text)
  unfolding IsCutPair
  cut_hard =
      let l = length-take max_chars text in
      let d = length-drop max_chars text in
      record {
        part_ok = (omega arith, omega arith);
        shorter = omega arith;
        glued = inl (take-drop max_chars text);
      }

  cut-IsCut : IsCutPair (cut max_chars lookback text)
  unfolding cut
  cut-IsCut =
      let window = take max_chars text in
      option_rule IsCutPair (break_place lookback (rfind 10 window)) _ _
        (λ _.
          option_rule IsCutPair (break_place lookback (rfind 32 window)) _ _ (λ _. cut_hard)
            cut_at_space)
        cut_at_line

-- The parts that the loop finds
IsSplit : ℕ → Str → Option (List Str) → Type 0
IsSplit max_chars text r =
    (parts : List Str) × (r ≡ some parts) × All (IsPart max_chars) parts × Joins parts text

prepend-IsSplit :
    (max_chars : ℕ) (text part rest : Str) (r : Option (List Str))
    → IsCut max_chars text part rest
    → IsSplit max_chars rest r
    → IsSplit max_chars text (prepend part r)
unfolding IsSplit
prepend-IsSplit max_chars text part rest r c (parts, e, sizes, joined) = (
  part ∷ parts,
  rw e,
  (c.part_ok, sizes),
  elim c.glued [ inl g ↦ whole part joined g | inr g ↦ at_space part joined g ],
)

one_part :
    (max_chars x : ℕ) (s : Str)
    → length (x ∷ s) ≤ max_chars
    → IsSplit max_chars (x ∷ s) (some ((x ∷ s) ∷ []))
unfolding IsSplit
one_part max_chars x s h =
    ((x ∷ s) ∷ [], refl, ((omega arith, h), tt), whole (x ∷ s) done (append-nil (x ∷ s)))

-- With fuel over the length of the text, the loop ends.
split_loop-IsSplit :
    (fuel max_chars lookback : ℕ) (text : Str)
    → 0 < lookback
    → 0 < max_chars
    → length text < fuel
    → IsSplit max_chars text (split_loop fuel max_chars lookback text)
unfolding split_loop
split_loop-IsSplit zero max_chars lookback text pos some_chars h = absurd (omega arith)
split_loop-IsSplit (suc fuel) max_chars lookback [] pos some_chars h =
    unfold IsSplit in ([], refl, tt, done)
split_loop-IsSplit (suc fuel) max_chars lookback (x ∷ s) pos some_chars h =
    bool_rule (IsSplit max_chars (x ∷ s)) (leb (length (x ∷ s)) max_chars) _ _
      (λ short. one_part max_chars x s (leb→le _ _ short))
      (λ long.
        let r = cut max_chars lookback (x ∷ s) in
        let c : IsCut max_chars (x ∷ s) r.0 r.1 =
          unfold IsCutPair in cut-IsCut max_chars lookback (x ∷ s) pos some_chars (ground arith) in
        prepend-IsSplit max_chars (x ∷ s) r.0 r.1 _ c (
          split_loop-IsSplit fuel max_chars lookback r.1 pos some_chars
            (let shorter = c.shorter in omega arith)))

keep_parts :
    (max_chars : ℕ) (parts : List Str)
    → All (IsPart max_chars) parts
    → keep (λ p. not (is_empty p)) parts ≡ parts
unfolding keep
keep_parts max_chars [] h = refl
keep_parts max_chars ([] ∷ parts) h = absurd (omega arith)
keep_parts max_chars ((x ∷ p) ∷ parts) h = ap (◌∷◌ (x ∷ p)) (keep_parts max_chars parts h.1)

empty-Joins : (text : Str) → is_empty text ≡ true → Joins [] text
empty-Joins [] e = done
empty-Joins (x ∷ s) e = cc

shown_whole :
    (max_chars : ℕ) (text : Str)
    → is_empty text ≡ false
    → length text ≤ max_chars
    → (parts : List Str) × (ok (text ∷ []) ≡ ok parts)
      × All (IsPart max_chars) parts
      × Joins parts text
shown_whole max_chars [] e h = cc
shown_whole max_chars (x ∷ s) e h =
    ((x ∷ s) ∷ [], refl, ((omega arith, h), tt), whole (x ∷ s) done (append-nil (x ∷ s)))

finished :
    (max_chars : ℕ) (text : Str) (r : Option (List Str))
    → IsSplit max_chars text r
    → (parts : List Str) × (finish r ≡ ok parts) × All (IsPart max_chars) parts × Joins parts text
unfolding IsSplit finish
finished max_chars text r (parts, e, sizes, joined) =
    (parts, rw e (ap ok (keep_parts max_chars parts sizes)), sizes, joined)

-- With a limit of 32 or more, every text is split: the loop ends, no part is empty or over the limit,
-- and the parts give the text back, but for one space behind a part that was cut there.
pub split_long_chat_text-Joins :
    (text : Str) (max_chars : ℕ)
    → 32 ≤ max_chars
    → (parts : List Str) × (split_long_chat_text text max_chars ≡ ok parts)
      × All (IsPart max_chars) parts
      × Joins parts text
unfolding split_long_chat_text
split_long_chat_text-Joins text max_chars h =
    let P = λ (r : Result (List Str)).
      (parts : List Str) × (r ≡ ok parts) × All (IsPart max_chars) parts × Joins parts text in
    if_rule P (ltb max_chars 32) value_error _ (λ small. absurd (ground arith))
      (λ _.
        if_rule P (is_empty text) (ok []) _ (λ blank. ([], refl, tt, empty-Joins text blank))
          (λ some_text.
            if_rule P (leb (length text) max_chars) (ok (text ∷ [])) _
              (λ short. shown_whole max_chars text some_text (leb→le _ _ short))
              (λ long. finished max_chars text _ (
                split_loop-IsSplit (suc (length text)) max_chars (max 1 (max_chars / 4)) text
                  (omega arith) (omega arith) (omega arith)))))
