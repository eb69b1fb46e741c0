-- ===== src/Processors/Regex.antt =====
-- plugins/processors/regex/regex.go: the groups of a regular expression as
-- labels and fields.
use neptunus.Base.{
  String, Option, none, some, List, [], ◌∷◌, Assoc, ok, err, ◌==◌, string_comparable, if◌then◌else◌,
}
use neptunus.Core.Fields.{MapPath}
use neptunus.Core.Event.{Event, get_label, set_label, get_field, set_field}

-- An expression of the library regexp: the names of its groups, from that of the whole match, and the
-- texts of the groups of a text that matches, as many; none for another text.
pub record Regexp : Type 0 where
  pub subexp_names : List String
  pub find_string_submatch : String → List String

-- The groups with a name, but for the first, with their texts.
unfoldable pub later_groups : List String → List String → Assoc String String
later_groups [] match = []
later_groups (name ∷ names) [] = []
later_groups (name ∷ names) (m ∷ match) =
    let rest = later_groups names match in if name == "" then rest else (name, m) ∷ rest

unfoldable pub groups : List String → List String → Assoc String String
unfolding later_groups
groups [] match = []
groups (whole ∷ names) [] = []
groups (whole ∷ names) (m ∷ match) = later_groups names match

module _ (M : MapPath) (text_of : M.Any → Option String) (of_text : String → M.Any) where
  unfoldable pub put_labels : Assoc String String → Event M.Any → Event M.Any
  put_labels [] e = e
  put_labels ((name, m) ∷ rest) e = put_labels rest (set_label name m e)

  -- An error is logged.
  unfoldable pub put_fields : Assoc String String → Event M.Any → Event M.Any
  put_fields [] e = e
  put_fields ((name, m) ∷ rest) e = elim (set_field M name (of_text m) e) [
    | ok e' ↦ put_fields rest e'
    | err x ↦ put_fields rest e
  ]

  -- The first loop of `process`.
  unfoldable pub process_labels : Assoc String Regexp → Event M.Any → Event M.Any
  unfolding get_label groups put_labels
  process_labels [] e = e
  process_labels ((name, rex) ∷ rest) e = elim (get_label name e) [
    | none ↦ process_labels rest e
    | some label ↦
        process_labels rest
          (put_labels (groups rex.subexp_names (rex.find_string_submatch label)) e)
  ]

  -- The second.
  unfoldable pub process_fields : Assoc String Regexp → Event M.Any → Event M.Any
  unfolding get_field groups put_fields
  process_fields [] e = e
  process_fields ((name, rex) ∷ rest) e = elim (get_field M name e) [
    | err x ↦ process_fields rest e
    | ok raw ↦ elim (text_of raw) [
      | none ↦ process_fields rest e
      | some field ↦
          process_fields rest
            (put_fields (groups rex.subexp_names (rex.find_string_submatch field)) e)
    ]
  ]

  unfoldable pub process : Assoc String Regexp → Assoc String Regexp → Event M.Any → Event M.Any
  unfolding process_labels process_fields
  process labels fields e = process_fields fields (process_labels labels e)
