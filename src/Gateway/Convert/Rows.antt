-- ===== src/Gateway/Convert/Rows.antt =====
-- `row_to_json` of crates/nexus-scout/src/convert.rs: a row with its columns in the order of their
-- names. Names are compared by their bytes.
pub mod Order
use nexus_scout.Base.{
  ℕ, ◌==◌, Bool, true, false, ◌&&◌, ◌||◌, [], ◌∷◌, Bytes, codes, ltb, if◌then◌else◌,
}
use nexus_scout.Gateway.Convert.{
  Numbers, BoltType, bolt_map, BoltMap, end_map, entry, bolt_to_json, single,
}
use nexus_scout.Gateway.Json.{Value, string, Members, end_members, member}
use nexus_scout.Gateway.Shaper.{Outcome, ok, err}

-- `str::cmp` is not `Greater`.
unfoldable pub name_le : Bytes → Bytes → Bool
name_le [] s = true
name_le (c ∷ p) [] = false
name_le (c ∷ p) (b ∷ s) = ltb c b || (c == b && name_le p s)

-- A pair put to its place in sorted pairs.
unfoldable pub insert_pair :
    {Number : Type 0} → Bytes → Value Number → Members Number → Members Number
unfolding name_le
insert_pair k v end_members = member k v end_members
insert_pair k v (member j w ms) =
    let rest = insert_pair k v ms in
    if name_le k j then member k v (member j w ms) else member j w rest

module _ {Number Integer Float : Type 0} (numbers : Numbers Number Integer Float) where
  -- The pairs of a row, converted and sorted (`sort_by` on the names).
  unfoldable pub sorted_pairs : BoltMap Integer Float → Members Number
  unfolding insert_pair
  sorted_pairs end_map = end_members
  sorted_pairs (entry k v m) = insert_pair k (bolt_to_json numbers v) (sorted_pairs m)

  -- `row_to_json`, on what `row.to::<BoltType>()` returns.
  unfoldable pub row_to_json :
      {Failure : Type 0} → Outcome (BoltType Integer Float) Failure → Members Number
  unfolding sorted_pairs
  row_to_json (ok (bolt_map m)) = sorted_pairs m
  row_to_json (ok other) = single (codes "value") (bolt_to_json numbers other)
  row_to_json (err e) = single (codes "_row_error") (string (codes "row conversion failed"))
