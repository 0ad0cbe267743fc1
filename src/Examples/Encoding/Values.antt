-- ===== src/Examples/Encoding/Values.antt =====
-- Values and their texts: numbers, pairs, lists, JSON values.
use i2pchat.Prelude.{
  ℕ, zero, suc, ◌+◌, ◌≤◌, ◌≡◌, refl, ap, Bool, true, false, Option, none, some, List, [], ◌∷◌,
  arith, length, ◌==◌, ltb, if◌then◌else◌, ℤ, pos, negsuc,
}
use i2pchat.Text.{Str}
use i2pchat.Json.{
  Json, Jsons, Fields, PyFloat, null, boolean, int, float, string, array, object, no_items, item,
  no_fields, field,
}

-- A value is read back with what follows it.
pub record Encoding (A : Type 0) : Type 0 where
  pub put : A → List ℕ → List ℕ
  pub take : List ℕ → Option (A × List ℕ)
  pub take-put : (a : A) (rest : List ℕ) → take (put a rest) ≡ some (a, rest)

abbrev take_nat : List ℕ → Option (ℕ × List ℕ)
take_nat [] = none
take_nat (n ∷ rest) = some (n, rest)

abbrev pub nat : Encoding ℕ
nat = record { put = λ n rest. n ∷ rest; take = take_nat; take-put = λ n rest. refl }

infixl 5 ◌then◌
abbrev ◌then◌ :
    {A B : Type 0} → Option (A × List ℕ) → (A → List ℕ → Option (B × List ℕ)) → Option (B × List ℕ)
none then f = none
(some r) then f = f r.0 r.1

abbrev pub pair : {A B : Type 0} → Encoding A → Encoding B → Encoding (A × B)
pair a b = record {
  put = λ x rest. a.put x.0 (b.put x.1 rest);
  take = λ s. a.take s then (λ x s'. b.take s' then (λ y s''. some ((x, y), s'')));
  take-put = λ x rest. rw (a.take-put x.0 (b.put x.1 rest)) (rw (b.take-put x.1 rest) refl);
}

abbrev pub via :
    {A B : Type 0} (f : A → B) (g : B → A) → ((x : A) → g (f x) ≡ x) → Encoding B → Encoding A
via f g h b = record {
  put = λ x rest. b.put (f x) rest;
  take = λ s. b.take s then (λ y s'. some (g y, s'));
  take-put = λ x rest. rw (b.take-put (f x) rest) (ap (λ y. some (y, rest)) (h x));
}

abbrev to_nat : Bool → ℕ
to_nat true = 1
to_nat false = 0

unfoldable pub bool : Encoding Bool
bool = via to_nat (λ n. n == 1) is_same nat
  where
    is_same : (b : Bool) → (to_nat b == 1) ≡ b
    is_same true = refl
    is_same false = refl

module _ {A : Type 0} (e : Encoding A) where
  abbrev put_option : Option A → List ℕ → List ℕ
  put_option none rest = 0 ∷ rest
  put_option (some a) rest = 1 ∷ e.put a rest

  abbrev take_option : List ℕ → Option (Option A × List ℕ)
  take_option [] = none
  take_option (t ∷ s) = if t == 0 then some (none, s) else e.take s then (λ a s'. some (some a, s'))

  pub take_option-put :
      (o : Option A) (rest : List ℕ) → take_option (put_option o rest) ≡ some (o, rest)
  take_option-put none rest = refl
  take_option-put (some a) rest = rw (e.take-put a rest) refl

  abbrev pub option : Encoding (Option A)
  option = record { put = put_option; take = take_option; take-put = take_option-put }

  abbrev put_all : List A → List ℕ → List ℕ
  put_all [] rest = rest
  put_all (x ∷ xs) rest = e.put x (put_all xs rest)

  abbrev take_all : ℕ → List ℕ → Option (List A × List ℕ)
  take_all zero s = some ([], s)
  take_all (suc n) s = e.take s then (λ x s'. take_all n s' then (λ xs s''. some (x ∷ xs, s'')))

  pub take_all-put :
      (xs : List A) (rest : List ℕ) → take_all (length xs) (put_all xs rest) ≡ some (xs, rest)
  take_all-put [] rest = refl
  take_all-put (x ∷ xs) rest = rw (e.take-put x (put_all xs rest)) (rw (take_all-put xs rest) refl)

  abbrev take_list : List ℕ → Option (List A × List ℕ)
  take_list [] = none
  take_list (n ∷ s) = take_all n s

  abbrev pub list : Encoding (List A)
  list = record {
    put = λ xs rest. length xs ∷ put_all xs rest;
    take = take_list;
    take-put = take_all-put;
  }

abbrev pub str : Encoding Str
str = list nat

abbrev of_sign : Bool × ℕ → ℤ
of_sign (true, n) = pos n
of_sign (false, n) = negsuc n

abbrev to_sign : ℤ → Bool × ℕ
to_sign (pos n) = (true, n)
to_sign (negsuc n) = (false, n)

unfoldable pub integer : Encoding ℤ
integer = via to_sign of_sign is_same (pair bool nat)
  where
    is_same : (z : ℤ) → of_sign (to_sign z) ≡ z
    is_same (pos n) = refl
    is_same (negsuc n) = refl

pub real : Encoding PyFloat
real =
    via (λ (x : PyFloat). (x.nonzero, (x.whole, x.text)))
      (λ x. record { nonzero = x.0; whole = x.1.0; text = x.1.1 }) (λ x. refl)
      (pair bool (pair (option integer) str))

unfoldable mutual
  pub size : Json → ℕ
  size (array js) = suc (items_size js)
  size (object fs) = suc (fields_size fs)
  size _ = 1

  items_size : Jsons → ℕ
  items_size no_items = 1
  items_size (item j js) = suc (size j + items_size js)

  fields_size : Fields → ℕ
  fields_size no_fields = 1
  fields_size (field k j fs) = suc (size j + fields_size fs)

unfoldable mutual
  pub put_json : Json → List ℕ → List ℕ
  put_json null rest = 0 ∷ rest
  put_json (boolean b) rest = 1 ∷ bool.put b rest
  put_json (int z) rest = 2 ∷ integer.put z rest
  put_json (float x) rest = 3 ∷ real.put x rest
  put_json (string s) rest = 4 ∷ str.put s rest
  put_json (array js) rest = 5 ∷ put_items js rest
  put_json (object fs) rest = 6 ∷ put_fields fs rest

  put_items : Jsons → List ℕ → List ℕ
  put_items no_items rest = 0 ∷ rest
  put_items (item j js) rest = 1 ∷ put_json j (put_items js rest)

  put_fields : Fields → List ℕ → List ℕ
  put_fields no_fields rest = 0 ∷ rest
  put_fields (field k j fs) rest = 1 ∷ str.put k (put_json j (put_fields fs rest))

take_scalar : ℕ → List ℕ → Option (Json × List ℕ)
take_scalar t s =
    if t == 0
    then some (null, s)
    else if t == 1
    then bool.take s
    then (λ b s'. some (boolean b, s'))
    else if t == 2
    then integer.take s
    then (λ z s'. some (int z, s'))
    else if t == 3
    then real.take s
    then (λ x s'. some (float x, s'))
    else str.take s then (λ x s'. some (string x, s'))

mutual
  pub take_json : ℕ → List ℕ → Option (Json × List ℕ)
  take_json zero s = none
  take_json (suc n) [] = none
  take_json (suc n) (t ∷ s) =
      if ltb t 5
      then take_scalar t s
      else if t == 5
      then take_items n s
      then (λ js s'. some (array js, s'))
      else take_fields n s then (λ fs s'. some (object fs, s'))

  take_items : ℕ → List ℕ → Option (Jsons × List ℕ)
  take_items zero s = none
  take_items (suc n) [] = none
  take_items (suc n) (t ∷ s) =
      if t == 0
      then some (no_items, s)
      else take_json n s then (λ j s'. take_items n s' then (λ js s''. some (item j js, s'')))

  take_fields : ℕ → List ℕ → Option (Fields × List ℕ)
  take_fields zero s = none
  take_fields (suc n) [] = none
  take_fields (suc n) (t ∷ s) =
      if t == 0
      then some (no_fields, s)
      else str.take s then (λ k s'.
        take_json n s' then (λ j s''. take_fields n s'' then (λ fs r. some (field k j fs, r))))

size-positive : (j : Json) → 1 ≤ size j
unfolding size
size-positive null = omega arith
size-positive (boolean b) = omega arith
size-positive (int z) = omega arith
size-positive (float x) = omega arith
size-positive (string s) = omega arith
size-positive (array js) = omega arith
size-positive (object fs) = omega arith

mutual
  unfolding take_scalar size put_json take_json

  pub take_json-put :
      (n : ℕ) (j : Json) (rest : List ℕ)
      → size j ≤ n
      → take_json n (put_json j rest) ≡ some (j, rest)
  take_json-put zero j rest h = absurd (omega (arith, size-positive j))
  take_json-put (suc n) null rest h = refl
  take_json-put (suc n) (boolean b) rest h = rw (bool.take-put b rest) refl
  take_json-put (suc n) (int z) rest h = rw (integer.take-put z rest) refl
  take_json-put (suc n) (float x) rest h = rw (real.take-put x rest) refl
  take_json-put (suc n) (string s) rest h = rw (str.take-put s rest) refl
  take_json-put (suc n) (array js) rest h = rw (take_items-put n js rest (omega arith)) refl
  take_json-put (suc n) (object fs) rest h = rw (take_fields-put n fs rest (omega arith)) refl

  take_items-put :
      (n : ℕ) (js : Jsons) (rest : List ℕ)
      → items_size js ≤ n
      → take_items n (put_items js rest) ≡ some (js, rest)
  take_items-put zero no_items rest h = absurd (omega arith)
  take_items-put zero (item j js) rest h = absurd (omega arith)
  take_items-put (suc n) no_items rest h = refl
  take_items-put (suc n) (item j js) rest h =
      rw (take_json-put n j (put_items js rest) (omega arith))
        (rw (take_items-put n js rest (omega arith)) refl)

  take_fields-put :
      (n : ℕ) (fs : Fields) (rest : List ℕ)
      → fields_size fs ≤ n
      → take_fields n (put_fields fs rest) ≡ some (fs, rest)
  take_fields-put zero no_fields rest h = absurd (omega arith)
  take_fields-put zero (field k j fs) rest h = absurd (omega arith)
  take_fields-put (suc n) no_fields rest h = refl
  take_fields-put (suc n) (field k j fs) rest h =
      rw (str.take-put k (put_json j (put_fields fs rest))) (
        rw (take_json-put n j (put_fields fs rest) (omega arith))
          (rw (take_fields-put n fs rest (omega arith)) refl))

abbrev take_sized : List ℕ → Option (Json × List ℕ)
take_sized [] = none
take_sized (n ∷ s) = take_json n s

unfoldable pub json_value : Encoding Json
json_value = record {
  put = λ j rest. size j ∷ put_json j rest;
  take = take_sized;
  take-put = λ j rest. take_json-put (size j) j rest (omega arith);
}
