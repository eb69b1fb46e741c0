-- ===== src/Processors/Mapping.antt =====
-- plugins/processors/switchcase/switchcase.go and plugins/processors/rk/rk.go: the index that is made
-- of a mapping of new keys to old ones, and the replacement of values by it.
pub mod Index
use Prim.Native.String.{◌++◌}
use neptunus.Base.{
  String, Option, none, some, List, [], ◌∷◌, Assoc, lookup, insert, Result, ok, err, ◌>>=◌,
  string_comparable,
}
use neptunus.Core.Fields.{MapPath, Error}
use neptunus.Core.Event.{Event, get_label, set_label, get_field, set_field}

-- `Mapping`: the old keys of each new key.
abbrev pub Mapping : Type 0
Mapping = Assoc String (List String)

-- The text of the error, after words in which the two processors differ.
abbrev pub duplicate : String → String → String → String → Error
duplicate words old dup new = words ++ old ++ "; already indexed: " ++ dup ++ ", duplicate: " ++ new

-- The inner loop of `mappingToIndex`.
unfoldable pub add_keys :
    String → String → List String → Assoc String String → Result Error (Assoc String String)
add_keys words new [] index = ok index
add_keys words new (old ∷ olds) index =
    let rest = add_keys words new olds (insert old new index) in
    elim (lookup old index) [ some dup ↦ err (duplicate words old dup new) | none ↦ rest ]

-- The outer loop.
unfoldable pub add_mapping :
    String → Mapping → Assoc String String → Result Error (Assoc String String)
unfolding add_keys
add_mapping words [] index = ok index
add_mapping words ((new, olds) ∷ m) index = do
  index' ← add_keys words new olds index
  add_mapping words m index'

unfoldable pub mapping_to_index : Mapping → Result Error (Assoc String String)
unfolding add_mapping
mapping_to_index m = add_mapping "duplicate replacement found for: " m []

-- `Rk.Init`, which has the two loops in itself.
unfoldable pub rk_init : Mapping → Result Error (Assoc String String)
unfolding add_mapping
rk_init mapping = add_mapping "duplicate key replacement found for: " mapping []

-- The `%w` of an error behind words and a name.
abbrev at_name : {A : Type 0} → String → String → Result Error A → Result Error A
at_name words name (ok a) = ok a
at_name words name (err x) = err (words ++ name ++ ": " ++ x)

-- A loop of `SwitchCase.Init` over the mappings of labels, or of fields.
unfoldable pub index_each :
    String → Assoc String Mapping → Result Error (Assoc String (Assoc String String))
unfolding mapping_to_index
index_each words [] = ok []
index_each words ((name, mapping) ∷ rest) = do
  index ← at_name words name (mapping_to_index mapping)
  indices ← index_each words rest
  ok ((name, index) ∷ indices)

-- The three indices that `SwitchCase.Init` makes, of labels, fields and routing keys.
unfoldable pub switch_init :
    Assoc String Mapping
    → Assoc String Mapping
    → Mapping
    → Result Error (
        Assoc String (Assoc String String)
        × Assoc String (Assoc String String)
        × Assoc String String)
unfolding index_each mapping_to_index
switch_init labels fields rk = do
  labels_index ← index_each "label " labels
  fields_index ← index_each "field " fields
  rk_index ← at_name "routing " "keys" (mapping_to_index rk)
  ok (labels_index, fields_index, rk_index)

-- The replacement of the routing key in `Run` of both processors.
unfoldable pub replace_key : {D : Type 0} → Assoc String String → Event D → Event D
replace_key index e = elim (lookup e.routing_key index) [
  | none ↦ e
  | some new_key ↦ record e { routing_key = new_key }
]

-- The loop over the labels in `SwitchCase.Run`.
unfoldable pub switch_labels : {D : Type 0} → Assoc String (Assoc String String) → Event D → Event D
unfolding get_label set_label
switch_labels [] e = e
switch_labels ((label, index) ∷ rest) e = switch_labels rest (elim (get_label label e) [
  | none ↦ e
  | some old_value ↦ elim (lookup old_value index) [
    | none ↦ e
    | some new_value ↦ set_label label new_value e
  ]
])

module _ (m : MapPath) (as_string : m.Any → Option String) (of_string : String → m.Any) where
  open m use {Any}

  -- The loop over the fields: a failed write is ignored.
  unfoldable pub switch_fields : Assoc String (Assoc String String) → Event Any → Event Any
  unfolding get_field set_field
  switch_fields [] e = e
  switch_fields ((field, index) ∷ rest) e = switch_fields rest (elim (get_field m field e) [
    | err x ↦ e
    | ok raw ↦ elim (as_string raw) [
      | none ↦ e
      | some old_value ↦ elim (lookup old_value index) [
        | none ↦ e
        | some new_value ↦ elim (set_field m field (of_string new_value) e) [
          | ok e' ↦ e'
          | err x ↦ e
        ]
      ]
    ]
  ])

  -- The body of `SwitchCase.Run`.
  unfoldable pub switch_case :
      Assoc String (Assoc String String)
      → Assoc String (Assoc String String)
      → Assoc String String
      → Event Any
      → Event Any
  unfolding switch_labels switch_fields replace_key
  switch_case labels_index fields_index rk_index e =
      replace_key rk_index (switch_fields fields_index (switch_labels labels_index e))
