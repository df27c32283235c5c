-- ===== src/Gateway/Json.antt =====
-- The values of `serde_json`, as the gateway takes them apart. A map is its members in the order in
-- which they were put in, which the crate's feature `preserve_order` keeps; what a number is belongs
-- to the crate and is a parameter.
use nexus_scout.Base.{ℕ, suc, Bytes, Bool, max}

mutual
  pub data Value (Number : Type 0) : Type 0 where
    null : Value Number
    boolean : Bool → Value Number
    number : Number → Value Number
    string : Bytes → Value Number
    array : Items Number → Value Number
    object : Members Number → Value Number

  pub data Items (Number : Type 0) : Type 0 where
    end_items : Items Number
    item : Value Number → Items Number → Items Number

  pub data Members (Number : Type 0) : Type 0 where
    end_members : Members Number
    member : Bytes → Value Number → Members Number → Members Number

-- How deep the arrays and objects of a value nest.
unfoldable mutual
  pub depth : {Number : Type 0} → Value Number → ℕ
  depth null = 0
  depth (boolean b) = 0
  depth (number n) = 0
  depth (string s) = 0
  depth (array xs) = suc (depth_items xs)
  depth (object ms) = suc (depth_members ms)

  pub depth_items : {Number : Type 0} → Items Number → ℕ
  depth_items end_items = 0
  depth_items (item v xs) = max (depth v) (depth_items xs)

  pub depth_members : {Number : Type 0} → Members Number → ℕ
  depth_members end_members = 0
  depth_members (member k v ms) = max (depth v) (depth_members ms)

unfoldable pub member_count : {Number : Type 0} → Members Number → ℕ
member_count end_members = 0
member_count (member k v ms) = suc (member_count ms)
