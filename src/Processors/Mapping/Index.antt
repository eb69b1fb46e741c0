-- ===== src/Processors/Mapping/Index.antt =====
-- plugins/processors/switchcase/switchcase.go: the index of a mapping answers as the mapping does.
use text.Mathlib.TextEquality.{eq_iff}
use neptunus.Base.{
  String, ◌≡◌, refl, Option, none, some, List, [], ◌∷◌, Assoc, lookup, insert, lookup-insert,
  Result, ok, string_comparable, if◌then◌else◌, arith, Option-cases, Result-cases, inl, inr,
  contains,
}
use neptunus.Processors.Mapping.{Mapping, add_keys, add_mapping, mapping_to_index}

-- The new key under which a mapping has an old one: the first, where there are several.
abbrev pub new_key : String → Mapping → Option String
new_key old [] = none
new_key old ((new, olds) ∷ m) = if contains olds old then some new else new_key old m

-- The first answer, or else the second.
abbrev pub or_else : Option String → Option String → Option String
or_else none b = b
or_else (some a) b = some a

err≢ok : {E A : Type 0} → {x : E} → {a : A} → ¬ (Result.err x ≡ ok a)
err≢ok p = cc

-- If the keys of one entry can be added, the index answers for them and for what it had.
add_keys-lookup :
    (words new : String) (olds : List String) (index index' : Assoc String String) (k : String)
    → add_keys words new olds index ≡ ok index'
    → lookup k index' ≡ or_else (lookup k index) (if contains olds k then some new else none)
unfolding add_keys contains
add_keys-lookup words new [] index index' k h = ground arith
add_keys-lookup words new (old ∷ olds) index index' k h = elim (Option-cases (lookup old index)) [
  | inl free ↦
      let h' : add_keys words new olds (insert old new index) ≡ ok index' =
        rw (free, add_keys) at h in
      let ih = add_keys-lookup words new olds (insert old new index) index' k h' in
      let at_k = lookup-insert old k new index in ground (arith, eq_iff old k)
  | inr (dup, used) ↦ absurd (err≢ok (rw (used, add_keys) at h))
]

or_else_assoc : (a b c : Option String) → or_else (or_else a b) c ≡ or_else a (or_else b c)
or_else_assoc none b c = refl
or_else_assoc (some a) b c = refl

add_mapping-lookup :
    (words : String) (m : Mapping) (index index' : Assoc String String) (k : String)
    → add_mapping words m index ≡ ok index'
    → lookup k index' ≡ or_else (lookup k index) (new_key k m)
unfolding add_mapping
add_mapping-lookup words [] index index' k h = ground arith
add_mapping-lookup words ((new, olds) ∷ m) index index' k h =
    elim (Result-cases (add_keys words new olds index)) [
      | inl (mid, added) ↦
          let h' : add_mapping words m mid ≡ ok index' = rw (added, add_mapping) at h in
          let ih = add_mapping-lookup words m mid index' k h' in
          let at_mid = add_keys-lookup words new olds index mid k added in ground arith
      | inr (x, failed) ↦ absurd (err≢ok (rw (failed, add_mapping) at h))
    ]

-- Where the index of a mapping can be made, it has for every value the new key under which the
-- mapping lists the value, the first where there are several, and nothing for the other values.
mapping_to_index_lem :
    (m : Mapping) (index : Assoc String String) (k : String)
    → mapping_to_index m ≡ ok index
    → lookup k index ≡ new_key k m
unfolding mapping_to_index lookup
mapping_to_index_lem m index k h =
    add_mapping-lookup "duplicate replacement found for: " m [] index k h
