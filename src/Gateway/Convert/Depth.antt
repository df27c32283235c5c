-- ===== src/Gateway/Convert/Depth.antt =====
-- How deep the conversions go, and what they refuse.
use nexus_scout.Base.{
  ℕ, suc, ◌+◌, ◌-◌, ◌*◌, ◌≤◌, ◌<◌, ◌≡◌, Bool, true, false, ◌&&◌, ◌||◌, not, arith, leb, max, Option,
  none, some,
}
use nexus_scout.Gateway.Convert.{
  BoltType, BoltList, BoltMap, bolt_null, bolt_boolean, bolt_integer, bolt_float, bolt_string,
  bolt_bytes, bolt_list, bolt_map, node, relation, unbounded_relation, path, opaque, end_list,
  element, end_map, entry, Numbers, bolt_to_json_depth, bolt_list_to_json, bolt_map_to_json,
  bolt_to_json, json_to_bolt_depth, items_to_bolt, members_to_bolt, json_to_bolt,
}
use nexus_scout.Gateway.Json.{
  Value, null, boolean, number, string, array, object, Items, end_items, item, Members, end_members,
  member, depth, depth_items, depth_members,
}
use nexus_scout.Gateway.Shaper.{Outcome, ok, err}

-- How many levels of a value are visited: a scalar is one.
unfoldable mutual
  pub levels : {Number : Type 0} → Value Number → ℕ
  levels null = 1
  levels (boolean b) = 1
  levels (number n) = 1
  levels (string s) = 1
  levels (array xs) = suc (levels_items xs)
  levels (object ms) = suc (levels_members ms)

  pub levels_items : {Number : Type 0} → Items Number → ℕ
  levels_items end_items = 0
  levels_items (item v xs) = max (levels v) (levels_items xs)

  pub levels_members : {Number : Type 0} → Members Number → ℕ
  levels_members end_members = 0
  levels_members (member k v ms) = max (levels v) (levels_members ms)

mutual
  unfolding levels depth

  levels-depth : {Number : Type 0} (v : Value Number) → levels v ≤ suc (depth v)
  levels-depth null = omega arith
  levels-depth (boolean b) = omega arith
  levels-depth (number n) = omega arith
  levels-depth (string s) = omega arith
  levels-depth (array xs) = omega (arith, levels_items-depth xs)
  levels-depth (object ms) = omega (arith, levels_members-depth ms)

  levels_items-depth :
      {Number : Type 0} (xs : Items Number) → levels_items xs ≤ suc (depth_items xs)
  levels_items-depth end_items = omega arith
  levels_items-depth (item v xs) = omega (arith, levels-depth v, levels_items-depth xs)

  levels_members-depth :
      {Number : Type 0} (ms : Members Number) → levels_members ms ≤ suc (depth_members ms)
  levels_members-depth end_members = omega arith
  levels_members-depth (member k v ms) = omega (arith, levels-depth v, levels_members-depth ms)

abbrev pub is_ok : {A Error : Type 0} → Outcome A Error → Bool
is_ok (ok a) = true
is_ok (err e) = false

abbrev is_some : {A : Type 0} → Option A → Bool
is_some none = false
is_some (some a) = true

module _ {Number Integer Float : Type 0} (numbers : Numbers Number Integer Float) where
  -- Whether the database can hold a number: it is an `i64`, or a float that is no large integer.
  abbrev pub is_bindable : Number → Bool
  is_bindable n =
      is_some (numbers.as_i64 n) || (not (numbers.is_u64 n) && is_some (numbers.as_f64 n))

  unfoldable mutual
    pub all_bindable : Value Number → Bool
    all_bindable null = true
    all_bindable (boolean b) = true
    all_bindable (number n) = is_bindable n
    all_bindable (string s) = true
    all_bindable (array xs) = bindable_items xs
    all_bindable (object ms) = bindable_members ms

    pub bindable_items : Items Number → Bool
    bindable_items end_items = true
    bindable_items (item v xs) = all_bindable v && bindable_items xs

    pub bindable_members : Members Number → Bool
    bindable_members end_members = true
    bindable_members (member k v ms) = all_bindable v && bindable_members ms

  mutual
    unfolding json_to_bolt_depth levels all_bindable

    json_to_bolt_depth-levels :
        (v : Value Number) (d : ℕ)
        → is_ok (json_to_bolt_depth numbers v d) ≡ (leb (levels v + d) 128 && all_bindable v)
    json_to_bolt_depth-levels null d = ground arith
    json_to_bolt_depth-levels (boolean b) d = ground arith
    json_to_bolt_depth-levels (number n) d = ground arith
    json_to_bolt_depth-levels (string s) d = ground arith
    json_to_bolt_depth-levels (array xs) d = ground (arith, items_to_bolt-levels xs d)
    json_to_bolt_depth-levels (object ms) d = ground (arith, members_to_bolt-levels ms d)

    items_to_bolt-levels :
        (xs : Items Number) (d : ℕ)
        → d < 128
        → is_ok (items_to_bolt numbers xs d)
          ≡ (leb (levels_items xs + suc d) 128 && bindable_items xs)
    items_to_bolt-levels end_items d h = ground arith
    items_to_bolt-levels (item v xs) d h =
        ground (arith, json_to_bolt_depth-levels v (suc d), items_to_bolt-levels xs d h)

    members_to_bolt-levels :
        (ms : Members Number) (d : ℕ)
        → d < 128
        → is_ok (members_to_bolt numbers ms d)
          ≡ (leb (levels_members ms + suc d) 128 && bindable_members ms)
    members_to_bolt-levels end_members d h = ground arith
    members_to_bolt-levels (member k v ms) d h =
        ground (arith, json_to_bolt_depth-levels v (suc d), members_to_bolt-levels ms d h)

  -- A JSON value whose arrays and objects nest less than 128 deep is converted for the database, or
  -- is refused, according to whether the database can hold each of its numbers.
  pub json_to_bolt-all_bindable :
      (v : Value Number) → depth v < 128 → is_ok (json_to_bolt numbers v) ≡ all_bindable v
  unfolding json_to_bolt
  json_to_bolt-all_bindable v h = ground (arith, json_to_bolt_depth-levels v 0, levels-depth v)

  mutual
    unfolding bolt_to_json_depth depth

    bolt_to_json_depth-depth :
        (v : BoltType Integer Float) (d : ℕ)
        → depth (bolt_to_json_depth numbers v d) ≤ 2 * (128 - d) + 1
    bolt_to_json_depth-depth bolt_null d = ground arith
    bolt_to_json_depth-depth (bolt_boolean b) d = ground arith
    bolt_to_json_depth-depth (bolt_integer i) d = ground arith
    bolt_to_json_depth-depth (bolt_float f) d = ground arith
    bolt_to_json_depth-depth (bolt_string s) d = ground arith
    bolt_to_json_depth-depth (bolt_list xs) d = ground (arith, bolt_list_to_json-depth xs d)
    bolt_to_json_depth-depth (bolt_map m) d = ground (arith, bolt_map_to_json-depth m d)
    bolt_to_json_depth-depth (bolt_bytes b) d = ground arith
    bolt_to_json_depth-depth (node m) d = ground (arith, bolt_map_to_json-depth m d)
    bolt_to_json_depth-depth (relation m) d = ground (arith, bolt_map_to_json-depth m d)
    bolt_to_json_depth-depth (unbounded_relation m) d = ground (arith, bolt_map_to_json-depth m d)
    bolt_to_json_depth-depth (path nodes rels) d =
        ground (arith, bolt_list_to_json-depth nodes d, bolt_list_to_json-depth rels d)
    bolt_to_json_depth-depth (opaque t) d = ground arith

    bolt_list_to_json-depth :
        (xs : BoltList Integer Float) (d : ℕ)
        → depth_items (bolt_list_to_json numbers xs d) ≤ 2 * (128 - suc d) + 1
    bolt_list_to_json-depth end_list d = ground arith
    bolt_list_to_json-depth (element v xs) d =
        ground (arith, bolt_to_json_depth-depth v (suc d), bolt_list_to_json-depth xs d)

    bolt_map_to_json-depth :
        (m : BoltMap Integer Float) (d : ℕ)
        → depth_members (bolt_map_to_json numbers m d) ≤ 2 * (128 - suc d) + 1
    bolt_map_to_json-depth end_map d = ground arith
    bolt_map_to_json-depth (entry k v m) d =
        ground (arith, bolt_to_json_depth-depth v (suc d), bolt_map_to_json-depth m d)

  -- However deep a value of the database nests, the JSON value that it becomes nests at most 257 deep:
  -- two levels for each of the 128 that are visited, as a path has, and the marker's own.
  pub bolt_to_json-depth : (v : BoltType Integer Float) → depth (bolt_to_json numbers v) ≤ 257
  unfolding bolt_to_json
  bolt_to_json-depth v = bolt_to_json_depth-depth v 0
