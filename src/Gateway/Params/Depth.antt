-- ===== src/Gateway/Params/Depth.antt =====
-- What the bounds on the parameters come to.
use nexus_scout.Base.{ℕ, ◌≤◌, ◌-◌, ◌≡◌, ◌↔◌, arith, leb}
use nexus_scout.Gateway.Json.{
  Value, null, boolean, number, string, array, object, Items, end_items, item, Members, end_members,
  member, member_count, depth, depth_items, depth_members,
}
use nexus_scout.Gateway.Limits.{Limits}
use nexus_scout.Gateway.Params.{within_depth, all_items, all_members, check_params}
use nexus_scout.Gateway.Shaper.{ok}

-- The Boolean test is that of a bound on the depth.
mutual
  unfolding within_depth depth

  within_depth-depth :
      {Number : Type 0} (v : Value Number) (limit : ℕ) → within_depth v limit ≡ leb (depth v) limit
  within_depth-depth null limit = ground arith
  within_depth-depth (boolean b) limit = ground arith
  within_depth-depth (number n) limit = ground arith
  within_depth-depth (string s) limit = ground arith
  within_depth-depth (array xs) limit = ground (arith, all_items-depth xs (limit - 1))
  within_depth-depth (object ms) limit = ground (arith, all_members-depth ms (limit - 1))

  all_items-depth :
      {Number : Type 0} (xs : Items Number) (limit : ℕ)
      → all_items xs limit ≡ leb (depth_items xs) limit
  all_items-depth end_items limit = ground arith
  all_items-depth (item v xs) limit =
      ground (arith, within_depth-depth v limit, all_items-depth xs limit)

  pub all_members-depth :
      {Number : Type 0} (ms : Members Number) (limit : ℕ)
      → all_members ms limit ≡ leb (depth_members ms) limit
  all_members-depth end_members limit = ground arith
  all_members-depth (member k v ms) limit =
      ground (arith, within_depth-depth v limit, all_members-depth ms limit)

-- Parameters are accepted exactly if their number, the size of their text and the depth of every
-- value are within the limits.
pub check_params_iff :
    {Number : Type 0} (serialized_len : Members Number → ℕ) (params : Members Number)
    (limits : Limits)
    → (check_params serialized_len params limits ≡ ok tt) ↔ (
        (member_count params ≤ limits.max_param_count)
        × (serialized_len params ≤ limits.max_param_bytes)
        × (depth_members params ≤ limits.max_param_depth))
unfolding check_params
check_params_iff serialized_len params limits = (
  λ h. ground (arith, all_members-depth params limits.max_param_depth),
  λ h. ground (arith, all_members-depth params limits.max_param_depth),
)
