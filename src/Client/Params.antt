-- ===== src/Client/Params.antt =====
-- Which value a parameter has.
use nexus_scout.Base.{
  ◌≡◌, ◌∙◌, refl, arith, ap, sym, subst, Bool, true, false, List, [], ◌∷◌, Option, none, some,
  Bytes, codes, bytes_eq, Bool-cases, inl, inr, if◌then◌else◌,
}
use nexus_scout.Client.{
  array, number, boolean, add_entry, insert, add_params, add_members, add_object, add_json,
  build_params, get, BadParams,
}
use nexus_scout.Gateway.Json.{
  null, boolean, number, array, Value, string, object, Members, end_members, member,
}
use nexus_scout.Gateway.Shaper.{Outcome, ok, err}
use nexus_scout.Gateway.Text.{split_once}
use nexus_scout.Wire.Codes.{bytes_eq-eq}

-- The value that an option gives, or else the other one.
abbrev pub or_else {ℓ} : {A : Type ℓ} → Option A → Option A → Option A
or_else (some a) o = some a
or_else none o = o

or_else_assoc {ℓ} :
    {A : Type ℓ} (a b c : Option A) → or_else (or_else a b) c ≡ or_else a (or_else b c)
or_else_assoc (some a) b c = refl
or_else_assoc none b c = refl

or_else-if {ℓ} :
    {A : Type ℓ} (b : Bool) (a : A) (o : Option A)
    → or_else (if b then some a else none) o ≡ (if b then some a else o)
or_else-if true a o = refl
or_else-if false a o = refl

bytes_eq_refl : (a : Bytes) → bytes_eq a a ≡ true
unfolding bytes_eq
bytes_eq_refl [] = refl
bytes_eq_refl (x ∷ a) = ground (arith, bytes_eq_refl a)

bytes_eq_trans : (i k j : Bytes) → bytes_eq i k ≡ true → bytes_eq j k ≡ true → bytes_eq i j ≡ true
bytes_eq_trans i k j ik jk =
    subst (λ x. bytes_eq i x ≡ true) (bytes_eq-eq i k ik ∙ sym (bytes_eq-eq j k jk))
      (bytes_eq_refl i)

bytes_eq-cong : (k i j : Bytes) → bytes_eq i j ≡ true → bytes_eq i k ≡ bytes_eq j k
bytes_eq-cong k i j same = ap (λ x. bytes_eq x k) (bytes_eq-eq i j same)

bytes_eq-other : (k i j : Bytes) → bytes_eq i j ≡ false → bytes_eq i k ≡ true → bytes_eq j k ≡ false
bytes_eq-other k i j differ same = elim (Bool-cases (bytes_eq j k)) [
  | inl both ↦ absurd (ground (arith, bytes_eq_trans i k j same both))
  | inr apart ↦ apart
]

or_else-none {ℓ} : {A : Type ℓ} (o : Option A) → or_else o none ≡ o
or_else-none (some a) = refl
or_else-none none = refl

module _ {Number : Type 0} where
  get-member :
      (k i : Bytes) (w : Value Number) (ms : Members Number)
      → get k (member i w ms) ≡ (if bytes_eq i k then some w else get k ms)
  unfolding get
  get-member k i w ms = refl

  get-insert :
      (k j : Bytes) (v : Value Number) (ms : Members Number)
      → get k (insert j v ms) ≡ (if bytes_eq j k then some v else get k ms)
  unfolding insert
  get-insert k j v end_members = unfold get in refl
  get-insert k j v (member i w ms) = elim (Bool-cases (bytes_eq i j)) [
    | inl same ↦
        let here = bytes_eq-cong k i j same in
        ground (arith, get-member k i v ms, get-member k i w ms)
    | inr differ ↦ ground (
      arith,
      get-member k i w (insert j v ms),
      get-member k i w ms,
      get-insert k j v ms,
      bytes_eq-other k i j differ,
    )
  ]

  -- The value that the last member of the key has.
  unfoldable pub last_member : Bytes → Members Number → Option (Value Number)
  last_member k end_members = none
  last_member k (member j v ms) = or_else (last_member k ms) (if bytes_eq j k then some v else none)

  abbrev pair_value : Bytes → Option (Bytes × Bytes) → Option (Value Number)
  pair_value k none = none
  pair_value k (some (j, v)) = if bytes_eq j k then some (string v) else none

  -- The value that the last `--param` of the key gives.
  unfoldable pub last_param : Bytes → List Bytes → Option (Value Number)
  last_param k [] = none
  last_param k (entry ∷ entries) =
      or_else (last_param k entries) (pair_value k (split_once (codes "=") entry))

  get-add_members :
      (k : Bytes) (ms map : Members Number)
      → get k (add_members ms map) ≡ or_else (last_member k ms) (get k map)
  unfolding add_members last_member
  get-add_members k end_members map = refl
  get-add_members k (member j v ms) map =
      get-add_members k ms (insert j v map)
      ∙ ap (or_else (last_member k ms))
          (get-insert k j v map ∙ sym (or_else-if (bytes_eq j k) v (get k map)))
      ∙ sym (or_else_assoc (last_member k ms) (if bytes_eq j k then some v else none) (get k map))

  abbrev members_or : Outcome (Members Number) BadParams → Members Number
  members_or (ok ms) = ms
  members_or (err e) = end_members

  get-add_entry :
      (k entry : Bytes) (o : Option (Bytes × Bytes)) (entries : List Bytes)
      (map result : Members Number)
      → ((m : Members Number)
          → add_params entries m ≡ ok result
          → get k result ≡ or_else (last_param k entries) (get k m))
      → add_entry o entry (add_params entries) map ≡ ok result
      → get k result ≡ or_else (last_param k entries) (or_else (pair_value k o) (get k map))
  get-add_entry k entry none entries map result rest h = absurd (ground arith)
  get-add_entry k entry (some (j, v)) entries map result rest h =
      rest (insert j (string v) map) h
      ∙ ap (or_else (last_param k entries))
          (get-insert k j (string v) map ∙ sym (or_else-if (bytes_eq j k) (string v) (get k map)))

  get-add_params :
      (k : Bytes) (entries : List Bytes) (map result : Members Number)
      → add_params entries map ≡ ok result
      → get k result ≡ or_else (last_param k entries) (get k map)
  unfolding add_params last_param
  get-add_params k [] map result h = sym (ap (λ o. get k (members_or o)) h)
  get-add_params k (entry ∷ entries) map result h =
      get-add_entry k entry (split_once (codes "=") entry) entries map result
        (λ m e. get-add_params k entries m result e) h
      ∙ sym (
          or_else_assoc (last_param k entries) (pair_value k (split_once (codes "=") entry))
            (get k map))

  -- The members that `--params-json` gives, where it is there and is an object.
  abbrev pub object_members : Option (Value Number) → Members Number
  object_members (some (object ms)) = ms
  object_members _ = end_members

  abbrev pub json_members : (Bytes → Option (Value Number)) → Option Bytes → Members Number
  json_members from_json none = end_members
  json_members from_json (some raw) = object_members (from_json raw)

  get-add_object :
      (k : Bytes) (parsed : Option (Value Number)) (map result : Members Number)
      → add_object parsed map ≡ ok result
      → get k result ≡ or_else (last_member k (object_members parsed)) (get k map)
  get-add_object k (some (object ms)) map result h =
      sym (ap (λ o. get k (members_or o)) h) ∙ get-add_members k ms map
  get-add_object k none map result h = absurd (ground arith)
  get-add_object k (some null) map result h = absurd (ground arith)
  get-add_object k (some (boolean b)) map result h = absurd (ground arith)
  get-add_object k (some (number n)) map result h = absurd (ground arith)
  get-add_object k (some (string s)) map result h = absurd (ground arith)
  get-add_object k (some (array xs)) map result h = absurd (ground arith)

  get-add_json :
      (from_json : Bytes → Option (Value Number)) (raw : Option Bytes) (k : Bytes)
      (o : Outcome (Members Number) BadParams) (found : Option (Value Number))
      (result : Members Number)
      → ((map : Members Number) → o ≡ ok map → get k map ≡ found)
      → add_json from_json raw o ≡ ok result
      → get k result ≡ or_else (last_member k (json_members from_json raw)) found
  get-add_json from_json raw k (err e) found result h r = absurd (ground arith)
  get-add_json from_json none k (ok map) found result h r = unfold last_member in h result r
  get-add_json from_json (some raw) k (ok map) found result h r =
      get-add_object k (from_json raw) map result r
      ∙ ap (or_else (last_member k (object_members (from_json raw)))) (h map refl)

  -- If the arguments are accepted, a parameter has the value that `--params-json` gives it, or else the
  -- one of the last `--param` with its key, or else none.
  pub get-build_params :
      (from_json : Bytes → Option (Value Number)) (params : List Bytes) (raw : Option Bytes)
      (result : Members Number) (k : Bytes)
      → build_params from_json params raw ≡ ok result
      → get k result ≡ or_else (last_member k (json_members from_json raw)) (last_param k params)
  unfolding build_params
  get-build_params from_json params raw result k h =
      get-add_json from_json raw k (add_params params end_members) (last_param k params) result
        (λ map e.
          get-add_params k params end_members map e
          ∙ unfold get in or_else-none (last_param k params))
        h
