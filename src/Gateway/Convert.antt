-- ===== src/Gateway/Convert.antt =====
-- crates/nexus-scout/src/convert.rs: values of the database and JSON values, in both directions. The
-- driver's integers and floats, `serde_json`'s numbers and base64 are parameters; a map is the list
-- of its members in the order in which it is visited.
pub mod Depth
pub mod Rows
pub mod Back
mod Tests
use nexus_scout.Base.{
  ℕ, suc, ◌≡◌, Bool, true, false, Option, none, some, leb, if◌then◌else◌, Bytes, codes, List, [],
  ◌∷◌,
}
use nexus_scout.Gateway.Errors.{Error, new_error, rejected_params, internal}
use nexus_scout.Gateway.Json.{
  Value, null, boolean, number, string, array, object, Items, end_items, item, Members, end_members,
  member,
}
use nexus_scout.Gateway.Shaper.{Outcome, ok, err}

-- The tags of the temporal and spatial values, which are not taken apart.
pub data Opaque : Type 0 where
  point2d point3d duration date time local_time date_time local_date_time date_time_zone_id : Opaque

mutual
  pub data BoltType (Integer Float : Type 0) : Type 0 where
    bolt_null : BoltType Integer Float
    bolt_boolean : Bool → BoltType Integer Float
    bolt_integer : Integer → BoltType Integer Float
    bolt_float : Float → BoltType Integer Float
    bolt_string : Bytes → BoltType Integer Float
    bolt_bytes : Bytes → BoltType Integer Float
    bolt_list : BoltList Integer Float → BoltType Integer Float
    bolt_map : BoltMap Integer Float → BoltType Integer Float
    -- by their properties
    node relation unbounded_relation : BoltMap Integer Float → BoltType Integer Float
    -- by its nodes and its relationships
    path : BoltList Integer Float → BoltList Integer Float → BoltType Integer Float
    opaque : Opaque → BoltType Integer Float

  pub data BoltList (Integer Float : Type 0) : Type 0 where
    end_list : BoltList Integer Float
    element : BoltType Integer Float → BoltList Integer Float → BoltList Integer Float

  pub data BoltMap (Integer Float : Type 0) : Type 0 where
    end_map : BoltMap Integer Float
    entry : Bytes → BoltType Integer Float → BoltMap Integer Float → BoltMap Integer Float

-- What the conversions use of `serde_json::Number`, of the driver's numbers and of base64.
pub record Numbers (Number Integer Float : Type 0) : Type 0 where
  pub as_i64 : Number → Option Integer
  pub is_u64 : Number → Bool
  pub as_f64 : Number → Option Float
  pub from_i64 : Integer → Number
  pub from_f64 : Float → Option Number
  pub base64 : Bytes → Bytes

-- `MAX_JSON_DEPTH`.
abbrev pub max_json_depth : ℕ
max_json_depth = 128

abbrev pub tag_of : Opaque → Bytes
tag_of point2d = codes "point"
tag_of point3d = codes "point"
tag_of duration = codes "duration"
tag_of date = codes "date"
tag_of time = codes "time"
tag_of local_time = codes "local_time"
tag_of date_time = codes "date_time"
tag_of local_date_time = codes "local_date_time"
tag_of date_time_zone_id = codes "date_time_zone_id"

-- `single`.
abbrev pub single : {Number : Type 0} → Bytes → Value Number → Members Number
single key v = member key v end_members

abbrev pub unconvertible : {Number : Type 0} → Bytes → Value Number
unconvertible tag = object (single (codes "_unconvertible") (string tag))

module _ {Number Integer Float : Type 0} (numbers : Numbers Number Integer Float) where
  -- `Number::from_f64` of the value, or the tagged marker.
  abbrev pub float_to_json : Option Number → Value Number
  float_to_json none = unconvertible (codes "non_finite_float")
  float_to_json (some n) = number n

  -- The first test of `bolt_to_json_depth`.
  abbrev pub depth_limited : ℕ → Value Number → Value Number
  depth_limited depth v =
      if leb max_json_depth depth then unconvertible (codes "max_depth_exceeded") else v

  unfoldable mutual
    pub bolt_to_json_depth : BoltType Integer Float → ℕ → Value Number
    bolt_to_json_depth bolt_null depth = depth_limited depth null
    bolt_to_json_depth (bolt_boolean b) depth = depth_limited depth (boolean b)
    bolt_to_json_depth (bolt_integer i) depth = depth_limited depth (number (numbers.from_i64 i))
    bolt_to_json_depth (bolt_float f) depth =
        depth_limited depth (float_to_json (numbers.from_f64 f))
    bolt_to_json_depth (bolt_string s) depth = depth_limited depth (string s)
    bolt_to_json_depth (bolt_list xs) depth =
        depth_limited depth (array (bolt_list_to_json xs depth))
    bolt_to_json_depth (bolt_map m) depth = depth_limited depth (object (bolt_map_to_json m depth))
    bolt_to_json_depth (bolt_bytes b) depth = depth_limited depth (string (numbers.base64 b))
    bolt_to_json_depth (node m) depth = depth_limited depth (object (bolt_map_to_json m depth))
    bolt_to_json_depth (relation m) depth = depth_limited depth (object (bolt_map_to_json m depth))
    bolt_to_json_depth (unbounded_relation m) depth =
        depth_limited depth (object (bolt_map_to_json m depth))
    bolt_to_json_depth (path nodes rels) depth = depth_limited depth (
        object (
          member (codes "nodes") (array (bolt_list_to_json nodes depth))
            (single (codes "relationships") (array (bolt_list_to_json rels depth)))))
    bolt_to_json_depth (opaque t) depth = depth_limited depth (unconvertible (tag_of t))

    pub bolt_list_to_json : BoltList Integer Float → ℕ → Items Number
    bolt_list_to_json end_list depth = end_items
    bolt_list_to_json (element v xs) depth =
        item (bolt_to_json_depth v (suc depth)) (bolt_list_to_json xs depth)

    pub bolt_map_to_json : BoltMap Integer Float → ℕ → Members Number
    bolt_map_to_json end_map depth = end_members
    bolt_map_to_json (entry k v m) depth =
        member k (bolt_to_json_depth v (suc depth)) (bolt_map_to_json m depth)

  unfoldable pub bolt_to_json : BoltType Integer Float → Value Number
  unfolding bolt_to_json_depth
  bolt_to_json v = bolt_to_json_depth v 0

  abbrev pub rejects : Bytes → Outcome (BoltType Integer Float) Error
  rejects reason = err (new_error (rejected_params reason))

  -- The arm `Value::Number`.
  abbrev pub float_to_bolt : Option Float → Outcome (BoltType Integer Float) Error
  float_to_bolt none = err (new_error internal)
  float_to_bolt (some f) = ok (bolt_float f)

  abbrev pub integer_to_bolt :
      Option Integer → Bool → Option Float → Outcome (BoltType Integer Float) Error
  integer_to_bolt (some i) big f = ok (bolt_integer i)
  integer_to_bolt none true f =
      rejects (codes "integer parameter exceeds Neo4j's 64-bit signed range")
  integer_to_bolt none false f = float_to_bolt f

  -- The first test of `json_to_bolt_depth`.
  abbrev pub stopped :
      ℕ → Outcome (BoltType Integer Float) Error → Outcome (BoltType Integer Float) Error
  stopped depth v = if leb max_json_depth depth then err (new_error internal) else v

  abbrev pub with_list :
      Outcome (BoltList Integer Float) Error → Outcome (BoltType Integer Float) Error
  with_list (ok xs) = ok (bolt_list xs)
  with_list (err e) = err e

  abbrev pub with_map :
      Outcome (BoltMap Integer Float) Error → Outcome (BoltType Integer Float) Error
  with_map (ok m) = ok (bolt_map m)
  with_map (err e) = err e

  -- `list.push(...?)`, for the first element before the rest.
  abbrev pub push_element :
      Outcome (BoltType Integer Float) Error
      → Outcome (BoltList Integer Float) Error
      → Outcome (BoltList Integer Float) Error
  push_element (err e) rest = err e
  push_element (ok v) (err e) = err e
  push_element (ok v) (ok xs) = ok (element v xs)

  abbrev pub insert_entry :
      Bytes
      → Outcome (BoltType Integer Float) Error
      → Outcome (BoltMap Integer Float) Error
      → Outcome (BoltMap Integer Float) Error
  insert_entry k (err e) rest = err e
  insert_entry k (ok v) (err e) = err e
  insert_entry k (ok v) (ok m) = ok (entry k v m)

  unfoldable mutual
    pub json_to_bolt_depth : Value Number → ℕ → Outcome (BoltType Integer Float) Error
    json_to_bolt_depth null depth = stopped depth (ok bolt_null)
    json_to_bolt_depth (boolean b) depth = stopped depth (ok (bolt_boolean b))
    json_to_bolt_depth (number n) depth =
        stopped depth (integer_to_bolt (numbers.as_i64 n) (numbers.is_u64 n) (numbers.as_f64 n))
    json_to_bolt_depth (string s) depth = stopped depth (ok (bolt_string s))
    json_to_bolt_depth (array xs) depth = stopped depth (with_list (items_to_bolt xs depth))
    json_to_bolt_depth (object ms) depth = stopped depth (with_map (members_to_bolt ms depth))

    pub items_to_bolt : Items Number → ℕ → Outcome (BoltList Integer Float) Error
    items_to_bolt end_items depth = ok end_list
    items_to_bolt (item v xs) depth =
        push_element (json_to_bolt_depth v (suc depth)) (items_to_bolt xs depth)

    pub members_to_bolt : Members Number → ℕ → Outcome (BoltMap Integer Float) Error
    members_to_bolt end_members depth = ok end_map
    members_to_bolt (member k v ms) depth =
        insert_entry k (json_to_bolt_depth v (suc depth)) (members_to_bolt ms depth)

  unfoldable pub json_to_bolt : Value Number → Outcome (BoltType Integer Float) Error
  unfolding json_to_bolt_depth
  json_to_bolt v = json_to_bolt_depth v 0
