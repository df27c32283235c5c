-- ===== src/Gateway/Params.antt =====
-- crates/nexus-scout/src/params.rs: the bounds on a query's parameters. The size of the JSON text is
-- `serde_json`'s to say and is a parameter.
pub mod Depth
use nexus_scout.Base.{ℕ, ◌-◌, Bool, true, false, ◌&&◌, not, ltb, leb, if◌then◌else◌, codes}
use nexus_scout.Gateway.Errors.{Error, new_error, rejected_params}
use nexus_scout.Gateway.Json.{
  Value, null, boolean, number, string, array, object, Items, end_items, item, Members, end_members,
  member, member_count,
}
use nexus_scout.Gateway.Limits.{Limits}
use nexus_scout.Gateway.Shaper.{Outcome, ok, err}

unfoldable mutual
  pub within_depth : {Number : Type 0} → Value Number → ℕ → Bool
  within_depth null limit = true
  within_depth (boolean b) limit = true
  within_depth (number n) limit = true
  within_depth (string s) limit = true
  within_depth (array xs) limit = leb 1 limit && all_items xs (limit - 1)
  within_depth (object ms) limit = leb 1 limit && all_members ms (limit - 1)

  pub all_items : {Number : Type 0} → Items Number → ℕ → Bool
  all_items end_items limit = true
  all_items (item v xs) limit = within_depth v limit && all_items xs limit

  pub all_members : {Number : Type 0} → Members Number → ℕ → Bool
  all_members end_members limit = true
  all_members (member k v ms) limit = within_depth v limit && all_members ms limit

-- `check_params`, with `serialized_len` first.
unfoldable pub check_params :
    {Number : Type 0} → (Members Number → ℕ) → Members Number → Limits → Outcome Unit Error
unfolding member_count all_members
check_params serialized_len params limits =
    if ltb limits.max_param_count (member_count params)
    then err (new_error (rejected_params (codes "too many parameters")))
    else if ltb limits.max_param_bytes (serialized_len params)
    then err (new_error (rejected_params (codes "parameter payload too large")))
    else if not (all_members params limits.max_param_depth)
    then err (new_error (rejected_params (codes "parameter nesting too deep")))
    else ok tt
