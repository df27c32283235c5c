-- ===== src/Gateway/Convert/Rows/Order.antt =====
-- The order in which the driver yields the columns does not show.
use nexus_scout.Base.{
  not, ◌≡◌, ◌≢◌, ◌∙◌, refl, arith, ap, true, false, [], ◌∷◌, Bytes, Bool-cases, inl, inr,
  if◌then◌else◌,
}
use nexus_scout.Gateway.Convert.Rows.{name_le, insert_pair, sorted_pairs, row_to_json}
use nexus_scout.Gateway.Convert.{Numbers, BoltType, bolt_map, BoltMap, entry, bolt_to_json}
use nexus_scout.Gateway.Json.{Value, Members, end_members, member}
use nexus_scout.Gateway.Shaper.{ok}

name_le_total : (p s : Bytes) → name_le p s ≡ false → name_le s p ≡ true
unfolding name_le
name_le_total [] s h = absurd (ground arith)
name_le_total (c ∷ p) [] h = refl
name_le_total (c ∷ p) (b ∷ s) h = ground (arith, name_le_total p s)

name_le_antisymm : (p s : Bytes) → name_le p s ≡ true → name_le s p ≡ true → p ≡ s
unfolding name_le
name_le_antisymm [] [] h k = refl
name_le_antisymm [] (b ∷ s) h k = absurd (ground arith)
name_le_antisymm (c ∷ p) [] h k = absurd (ground arith)
name_le_antisymm (c ∷ p) (b ∷ s) h k = ground (arith, name_le_antisymm p s)

name_le_trans : (p s t : Bytes) → name_le p s ≡ true → name_le s t ≡ true → name_le p t ≡ true
unfolding name_le
name_le_trans [] s t h k = refl
name_le_trans (c ∷ p) [] t h k = absurd (ground arith)
name_le_trans (c ∷ p) (b ∷ s) [] h k = absurd (ground arith)
name_le_trans (c ∷ p) (b ∷ s) (d ∷ t) h k = ground (arith, name_le_trans p s t)

name_le_flip : (k j : Bytes) → k ≢ j → name_le j k ≡ not (name_le k j)
name_le_flip k j h = elim (Bool-cases (name_le k j)) [
  | inl le ↦ elim (Bool-cases (name_le j k)) [
    | inl ge ↦ absurd (h (name_le_antisymm k j le ge))
    | inr gt ↦ ground arith
  ]
  | inr gt ↦ let le = name_le_total k j gt in ground arith
]

module _ {Number : Type 0} where
  insert_pair-member :
      (k : Bytes) (v : Value Number) (j : Bytes) (w : Value Number) (ms : Members Number)
      → insert_pair k v (member j w ms)
        ≡ (if name_le k j then member k v (member j w ms) else member j w (insert_pair k v ms))
  unfolding insert_pair
  insert_pair-member k v j w ms = refl

  insert_pair-end :
      (k : Bytes) (v : Value Number) → insert_pair k v end_members ≡ member k v end_members
  unfolding insert_pair
  insert_pair-end k v = refl

  insert_pair_comm :
      (k : Bytes) (v : Value Number) (j : Bytes) (w : Value Number) (ms : Members Number)
      → k ≢ j
      → insert_pair k v (insert_pair j w ms) ≡ insert_pair j w (insert_pair k v ms)
  insert_pair_comm k v j w end_members h = ground (
    arith,
    insert_pair-end k v,
    insert_pair-end j w,
    insert_pair-member k v j w end_members,
    insert_pair-member j w k v end_members,
    name_le_flip k j h,
  )
  insert_pair_comm k v j w (member i u ms) h = ground (
    arith,
    insert_pair-member j w i u ms,
    insert_pair-member k v i u ms,
    insert_pair-member k v j w (member i u ms),
    insert_pair-member k v i u (insert_pair j w ms),
    insert_pair-member j w k v (member i u ms),
    insert_pair-member j w i u (insert_pair k v ms),
    insert_pair_comm k v j w ms h,
    name_le_flip k j h,
    name_le_trans k j i,
    name_le_trans j k i,
  )

-- Two orders of the same entries: entries of different names that stand side by side are exchanged.
pub data Reordered (Integer Float : Type 0)
    : BoltMap Integer Float → BoltMap Integer Float → Type 0 where
  same : (m : BoltMap Integer Float) → Reordered Integer Float m m
  keep :
      (k : Bytes) (v : BoltType Integer Float) {m n : BoltMap Integer Float}
      → Reordered Integer Float m n
      → Reordered Integer Float (entry k v m) (entry k v n)
  exchange :
      (k j : Bytes) (v w : BoltType Integer Float) (m : BoltMap Integer Float)
      → k ≢ j
      → Reordered Integer Float (entry k v (entry j w m)) (entry j w (entry k v m))
  chain :
      {l m n : BoltMap Integer Float}
      → Reordered Integer Float l m
      → Reordered Integer Float m n
      → Reordered Integer Float l n

module _ {Number Integer Float : Type 0} (numbers : Numbers Number Integer Float) where
  sorted_pairs-Reordered :
      (m n : BoltMap Integer Float)
      → Reordered Integer Float m n
      → sorted_pairs numbers m ≡ sorted_pairs numbers n
  unfolding sorted_pairs
  sorted_pairs-Reordered m n (same l) = refl
  sorted_pairs-Reordered m n (keep k v r) =
      ap (insert_pair k (bolt_to_json numbers v)) (sorted_pairs-Reordered _ _ r)
  sorted_pairs-Reordered m n (exchange k j v w l h) =
      insert_pair_comm k (bolt_to_json numbers v) j (bolt_to_json numbers w)
        (sorted_pairs numbers l) h
  sorted_pairs-Reordered m n (chain r s) =
      sorted_pairs-Reordered _ _ r ∙ sorted_pairs-Reordered _ _ s

  -- A row is the same JSON object in whatever order the driver yields its columns, which have different
  -- names.
  pub row_to_json-Reordered :
      (Failure : Type 0) (m n : BoltMap Integer Float)
      → Reordered Integer Float m n
      → row_to_json numbers {Failure = Failure} (ok (bolt_map m))
        ≡ row_to_json numbers {Failure = Failure} (ok (bolt_map n))
  unfolding row_to_json
  row_to_json-Reordered Failure m n r = sorted_pairs-Reordered m n r
