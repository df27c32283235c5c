-- ===== src/Gateway/Convert/Tests.antt =====
-- The conversions at concrete values.
use nexus_scout.Base.{ℕ, ◌≡◌, refl, arith, some, none, true, codes}
use nexus_scout.Gateway.Convert.Back.{Faithful, bolt_to_json-json_to_bolt}
use nexus_scout.Gateway.Convert.{
  Numbers, BoltType, bolt_map, bolt_list, bolt_integer, bolt_string, entry, end_map, element,
  end_list, bolt_to_json, json_to_bolt,
}
use nexus_scout.Gateway.Json.{
  Value, object, member, end_members, array, item, end_items, number, string,
}

-- Natural numbers as integers, and no floats.
abbrev integers : Numbers ℕ ℕ ℕ
integers = record {
  as_i64 = λ n. some n;
  is_u64 = λ n. true;
  as_f64 = λ n. none;
  from_i64 = λ n. n;
  from_f64 = λ n. none;
  base64 = λ b. b;
}

integers_faithful : Faithful integers
integers_faithful = record {
  integers = λ n i h. ground arith;
  floats = λ n f h k e. absurd (ground arith);
}

abbrev given : Value ℕ
given = object (
    member (codes "ids") (array (item (number 1) (item (number 2) end_items)))
      (member (codes "name") (string (codes "ana")) end_members))

abbrev bound : BoltType ℕ ℕ
bound = bolt_map (
    entry (codes "ids") (bolt_list (element (bolt_integer 1) (element (bolt_integer 2) end_list)))
      (entry (codes "name") (bolt_string (codes "ana")) end_map))

bolt_to_json-json_to_bolt_example : bolt_to_json integers bound ≡ given
bolt_to_json-json_to_bolt_example =
    bolt_to_json-json_to_bolt ℕ ℕ ℕ integers given bound integers_faithful
      (unfold json_to_bolt in refl)
