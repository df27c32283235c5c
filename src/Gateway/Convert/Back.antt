-- ===== src/Gateway/Convert/Back.antt =====
-- What is bound as a parameter, read back.
use nexus_scout.Base.{
  ℕ, suc, ◌≡◌, refl, ap, subst, Bool, true, false, Option, none, some, leb, Bytes, Bool-cases, inl,
  inr,
}
use nexus_scout.Gateway.Convert.{
  BoltType, BoltList, BoltMap, Numbers, bolt_to_json_depth, bolt_list_to_json, bolt_map_to_json,
  bolt_to_json, json_to_bolt_depth, items_to_bolt, members_to_bolt, json_to_bolt, integer_to_bolt,
  float_to_json, stopped, with_list, with_map, push_element, insert_entry,
}
use nexus_scout.Gateway.Errors.{Error}
use nexus_scout.Gateway.Json.{
  Value, null, boolean, number, string, array, object, Items, end_items, item, Members, end_members,
  member,
}
use nexus_scout.Gateway.Shaper.{Outcome, ok, err}

module _ {Number Integer Float : Type 0} (numbers : Numbers Number Integer Float) where
  -- What the crates document of their numbers: a JSON number that is an `i64` is the one made of it,
  -- and one that is no integer is the one made of its float.
  pub record Faithful : Type 0 where
    pub integers : (n : Number) (i : Integer) → numbers.as_i64 n ≡ some i → numbers.from_i64 i ≡ n
    pub floats :
        (n : Number) (f : Float)
        → numbers.as_i64 n ≡ none
        → numbers.is_u64 n ≡ false
        → numbers.as_f64 n ≡ some f
        → numbers.from_f64 f ≡ some n

  abbrev Back : Value Number → ℕ → Outcome (BoltType Integer Float) Error → Type 0
  Back v d (ok b) = bolt_to_json_depth numbers b d ≡ v
  Back v d (err e) = Unit

  abbrev BackItems : Items Number → ℕ → Outcome (BoltList Integer Float) Error → Type 0
  BackItems xs d (ok l) = bolt_list_to_json numbers l d ≡ xs
  BackItems xs d (err e) = Unit

  abbrev BackMembers : Members Number → ℕ → Outcome (BoltMap Integer Float) Error → Type 0
  BackMembers ms d (ok m) = bolt_map_to_json numbers m d ≡ ms
  BackMembers ms d (err e) = Unit

  -- A value that is not too deep, in both directions.
  stopped-Back :
      (v : Value Number) (d : ℕ) (o : Outcome (BoltType Integer Float) Error)
      → (leb 128 d ≡ false → Back v d o)
      → Back v d (stopped numbers d o)
  stopped-Back v d o f = elim (Bool-cases (leb 128 d)) [
    | inl deep ↦ rw deep tt
    | inr shallow ↦ rw shallow (f shallow)
  ]

  with_list-Back :
      (xs : Items Number) (d : ℕ) (o : Outcome (BoltList Integer Float) Error)
      → leb 128 d ≡ false
      → BackItems xs d o
      → Back (array xs) d (with_list numbers o)
  unfolding bolt_to_json_depth
  with_list-Back xs d (ok l) h back = rw h (ap array back)
  with_list-Back xs d (err e) h back = tt

  with_map-Back :
      (ms : Members Number) (d : ℕ) (o : Outcome (BoltMap Integer Float) Error)
      → leb 128 d ≡ false
      → BackMembers ms d o
      → Back (object ms) d (with_map numbers o)
  unfolding bolt_to_json_depth
  with_map-Back ms d (ok m) h back = rw h (ap object back)
  with_map-Back ms d (err e) h back = tt

  push_element-Back :
      (v : Value Number) (xs : Items Number) (d : ℕ) (o : Outcome (BoltType Integer Float) Error)
      (os : Outcome (BoltList Integer Float) Error)
      → Back v (suc d) o
      → BackItems xs d os
      → BackItems (item v xs) d (push_element numbers o os)
  unfolding bolt_list_to_json
  push_element-Back v xs d (err e) os h k = tt
  push_element-Back v xs d (ok b) (err e) h k = tt
  push_element-Back v xs d (ok b) (ok l) h k = rw (h, k) refl

  insert_entry-Back :
      (key : Bytes) (v : Value Number) (ms : Members Number) (d : ℕ)
      (o : Outcome (BoltType Integer Float) Error) (os : Outcome (BoltMap Integer Float) Error)
      → Back v (suc d) o
      → BackMembers ms d os
      → BackMembers (member key v ms) d (insert_entry numbers key o os)
  unfolding bolt_map_to_json
  insert_entry-Back key v ms d (err e) os h k = tt
  insert_entry-Back key v ms d (ok b) (err e) h k = tt
  insert_entry-Back key v ms d (ok b) (ok m) h k = rw (h, k) refl

  module _ (faithful : Faithful) where
    number-Back :
        (n : Number) (d : ℕ) (i : Option Integer) (big : Bool) (f : Option Float)
        → leb 128 d ≡ false
        → numbers.as_i64 n ≡ i
        → numbers.is_u64 n ≡ big
        → numbers.as_f64 n ≡ f
        → Back (number n) d (integer_to_bolt numbers i big f)
    unfolding bolt_to_json_depth
    number-Back n d (some i) big f h ei eb ef = rw h (ap number (faithful.integers n i ei))
    number-Back n d none true f h ei eb ef = tt
    number-Back n d none false none h ei eb ef = tt
    number-Back n d none false (some f) h ei eb ef =
        rw h (ap (float_to_json numbers) (faithful.floats n f ei eb ef))

    mutual
      unfolding json_to_bolt_depth bolt_to_json_depth

      json_to_bolt_depth-Back :
          (v : Value Number) (d : ℕ) → Back v d (json_to_bolt_depth numbers v d)
      json_to_bolt_depth-Back null d = stopped-Back null d _ (λ h. rw h refl)
      json_to_bolt_depth-Back (boolean b) d = stopped-Back (boolean b) d _ (λ h. rw h refl)
      json_to_bolt_depth-Back (string s) d = stopped-Back (string s) d _ (λ h. rw h refl)
      json_to_bolt_depth-Back (number n) d =
          stopped-Back (number n) d _ (λ h. number-Back n d _ _ _ h refl refl refl)
      json_to_bolt_depth-Back (array xs) d =
          stopped-Back (array xs) d _ (λ h. with_list-Back xs d _ h (items_to_bolt-Back xs d))
      json_to_bolt_depth-Back (object ms) d =
          stopped-Back (object ms) d _ (λ h. with_map-Back ms d _ h (members_to_bolt-Back ms d))

      items_to_bolt-Back : (xs : Items Number) (d : ℕ) → BackItems xs d (items_to_bolt numbers xs d)
      items_to_bolt-Back end_items d = refl
      items_to_bolt-Back (item v xs) d =
          push_element-Back v xs d _ _ (json_to_bolt_depth-Back v (suc d)) (items_to_bolt-Back xs d)

      members_to_bolt-Back :
          (ms : Members Number) (d : ℕ) → BackMembers ms d (members_to_bolt numbers ms d)
      members_to_bolt-Back end_members d = refl
      members_to_bolt-Back (member k v ms) d =
          insert_entry-Back k v ms d _ _ (json_to_bolt_depth-Back v (suc d))
            (members_to_bolt-Back ms d)

-- A parameter that is bound and that the database hands back as it is comes out as the JSON value that
-- it was, with a map that is visited in the order in which it was filled. The numbers of the crates
-- are assumed to be what their documentation says.
pub bolt_to_json-json_to_bolt :
    (Number Integer Float : Type 0) (numbers : Numbers Number Integer Float) (v : Value Number)
    (b : BoltType Integer Float)
    → Faithful numbers
    → json_to_bolt numbers v ≡ ok b
    → bolt_to_json numbers b ≡ v
unfolding json_to_bolt bolt_to_json
bolt_to_json-json_to_bolt Number Integer Float numbers v b faithful h =
    subst (Back numbers v 0) h (json_to_bolt_depth-Back numbers faithful v 0)
