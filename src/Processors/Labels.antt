-- ===== src/Processors/Labels.antt =====
-- plugins/processors/defaults/defaults.go, rename/rename.go and delete/delete.go beside it: the loops over the
-- labels and the fields that the plugin is configured with.
pub mod Final
use neptunus.Base.{
  String, Bool, true, false, Option, none, some, List, [], ◌∷◌, Assoc, Result, ok, err,
  if◌then◌else◌,
}
use Prim.Native.String.{◌++◌}
use neptunus.Core.Fields.{MapPath, Error}
use neptunus.Core.Event.{
  Event, get_label, set_label, delete_label, get_field, set_field, delete_field, stack_error,
}

module _ {D : Type 0} where
  unfoldable pub default_label : String → String → Event D → Event D
  unfolding get_label set_label
  default_label k v e = elim (get_label k e) [ none ↦ set_label k v e | some old ↦ e ]

  -- The first loop of `Defaults.Run`.
  unfoldable pub default_labels : Assoc String String → Event D → Event D
  unfolding default_label
  default_labels [] e = e
  default_labels ((k, v) ∷ rest) e = default_labels rest (default_label k v e)

  -- The first loop of `Delete.Run`.
  unfoldable pub delete_labels : List String → Event D → Event D
  unfolding delete_label
  delete_labels [] e = e
  delete_labels (label ∷ rest) e = delete_labels rest (delete_label label e)

  -- The body of the first loop of `Rename.Run`.
  unfoldable pub rename_label : Bool → String → String → Event D → Event D
  unfolding get_label set_label delete_label
  rename_label delete_origin to from e = elim (get_label from e) [
    | none ↦ e
    | some value ↦
        if delete_origin then delete_label from (set_label to value e) else set_label to value e
  ]

  unfoldable pub rename_labels : Bool → Assoc String String → Event D → Event D
  unfolding rename_label
  rename_labels delete_origin [] e = e
  rename_labels delete_origin ((to, from) ∷ rest) e =
      rename_labels delete_origin rest (rename_label delete_origin to from e)

module _ (m : MapPath) where
  open m use {Any}

  -- The second loop of `Defaults.Run`, with `hasError`.
  unfoldable pub default_fields : Assoc String Any → Bool → Event Any → Event Any × Bool
  unfolding get_field set_field stack_error
  default_fields [] has_error e = (e, has_error)
  default_fields ((k, v) ∷ rest) has_error e = elim (get_field m k e) [
    | ok old ↦ default_fields rest has_error e
    | err missing ↦ elim (set_field m k v e) [
      | ok e' ↦ default_fields rest has_error e'
      | err x ↦ default_fields rest true (stack_error ("error set field: " ++ x) e)
    ]
  ]

  unfoldable pub default_event :
      Assoc String String → Assoc String Any → Event Any → Event Any × Bool
  unfolding default_labels default_fields
  default_event labels fields e = default_fields fields false (default_labels labels e)

  -- The second loop of `Rename.Run`: a field that is missing is skipped, and an error of
  -- `DeleteField` is not looked at.
  unfoldable pub rename_fields : Bool → Assoc String String → Bool → Event Any → Event Any × Bool
  unfolding get_field set_field delete_field
  rename_fields delete_origin [] has_error e = (e, has_error)
  rename_fields delete_origin ((to, from) ∷ rest) has_error e = elim (get_field m from e) [
    | err missing ↦ rename_fields delete_origin rest has_error e
    | ok value ↦ elim (set_field m to value e) [
      | err x ↦ rename_fields delete_origin rest true e
      | ok e' ↦ rename_fields delete_origin rest has_error (
          if delete_origin
          then (elim (delete_field m from e') [ ok e'' ↦ e'' | err x ↦ e' ])
          else e')
    ]
  ]

  unfoldable pub rename_event :
      Bool → Assoc String String → Assoc String String → Event Any → Event Any × Bool
  unfolding rename_labels rename_fields
  rename_event delete_origin labels fields e =
      rename_fields delete_origin fields false (rename_labels delete_origin labels e)

  -- The second loop of `Delete.Run`.
  unfoldable pub delete_fields : List String → Event Any → Event Any
  unfolding delete_field
  delete_fields [] e = e
  delete_fields (field ∷ rest) e =
      delete_fields rest (elim (delete_field m field e) [ ok e' ↦ e' | err x ↦ e ])

  unfoldable pub delete_event : List String → List String → Event Any → Event Any
  unfolding delete_labels delete_fields
  delete_event labels fields e = delete_fields fields (delete_labels labels e)
