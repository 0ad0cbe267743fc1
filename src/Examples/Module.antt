-- ===== src/Examples/Module.antt =====
-- A reversible text that stands for `json`.
use i2pchat.Prelude.{ℕ, refl, ap, Option, none, List, [], ◌∷◌}
use i2pchat.Json.{Json, object, from_fields, fields-from_fields}
use i2pchat.Dict.{lookup}
use i2pchat.Groups.Store.Record.Written.{JsonModule}
use i2pchat.Examples.Encoding.Values.{json_value}
use i2pchat.Examples.Wire.{first}

abbrev pub after_brace : List ℕ → Option Json
after_brace [] = none
after_brace (c ∷ s) = first (json_value.take s)

abbrev pub json_module : JsonModule
json_module = record {
  dumps = λ d. b'{' ∷ json_value.put (object (from_fields d)) [];
  dumps_sorted = λ d. b'{' ∷ json_value.put (object (from_fields d)) [];
  loads = after_brace;
  loads-dumps = λ d. (
    from_fields d,
    ap first (json_value.take-put (object (from_fields d)) []),
    λ k. ap (lookup k) (fields-from_fields d),
  );
  loads-dumps_sorted = λ d. (
    from_fields d,
    ap first (json_value.take-put (object (from_fields d)) []),
    λ k. ap (lookup k) (fields-from_fields d),
  );
  dumps_sorted_brace = λ d. (json_value.put (object (from_fields d)) [], refl);
}
