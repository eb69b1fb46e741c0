-- ===== src/Processors/Lookup.antt =====
-- plugins/processors/lookup/lookup.go, and plugins/core/lookup/lookup.go beside it: what an event gets from a lookup.
use neptunus.Base.{
  String, Bool, true, false, none, some, List, [], ◌∷◌, Assoc, Result, ok, err, joined, refl,
  Result-cases, Option-cases, inl, inr,
}
use neptunus.Core.Fields.{Error, MapPath}
use neptunus.Core.Event.{Event, set_label, set_field, stack_error}
use neptunus.Convert.{Library, Any, any_to_string}
use neptunus.Processors.Failing.{
  Stacked, Stacked-none, Stacked-one, Stacked-trans, set_label-errors, set_field-errors,
}

-- What happens to the lookup of plugins/core/lookup/: its timer fires, or its context is done.
pub data Wake (D : Type 0) : Type 0 where
  stopped : Wake D
  tick : Result Error D → Wake D

-- `Lookup.Run` with an interval: the data that an update returned replaces the old, an error leaves
-- them. The result is the data when the loop has ended or waits.
unfoldable pub refresh : {D : Type 0} → List (Wake D) → D → D
refresh [] current = current
refresh (stopped ∷ wakes) current = current
refresh (tick (ok fresh) ∷ wakes) current = refresh wakes fresh
refresh (tick (err x) ∷ wakes) current = refresh wakes current

-- `Lookup.Get`: a copy of what is in the data under the key.
unfoldable pub get_from : (M : MapPath) → M.Any → String → Result Error M.Any
get_from M current key = elim (M.get current key) [ ok found ↦ ok (M.clone found) | err x ↦ err x ]

module _ (M : MapPath) (L : Library) (of_field : M.Any → Any L)
    (get : String → Result Error M.Any) where
  -- The body of the first loop of `Run`.
  unfoldable pub lookup_label : String → String → Event M.Any × Bool → Event M.Any × Bool
  lookup_label k v (e, failed) = elim (get v) [
    | err x ↦ (
      stack_error
          (joined ("label " ∷ k ∷ ": failed to get lookup data by key " ∷ v ∷ ": " ∷ x ∷ [])) e,
      true,
    )
    | ok val ↦
        let (s, bad) = any_to_string L (of_field val) in
        elim bad [
          | some x ↦ (
            stack_error
                (joined ("label " ∷ k ∷ ": key " ∷ v ∷ ": failed to convert to string: " ∷ x ∷ []))
                e,
            true,
          )
          | none ↦ (set_label k s e, failed)
        ]
  ]

  unfoldable pub lookup_labels : Assoc String String → Event M.Any × Bool → Event M.Any × Bool
  lookup_labels [] r = r
  lookup_labels ((k, v) ∷ rest) r = lookup_labels rest (lookup_label k v r)

  -- The body of the second loop.
  unfoldable pub lookup_field : String → String → Event M.Any × Bool → Event M.Any × Bool
  lookup_field k v (e, failed) = elim (get v) [
    | err x ↦ (
      stack_error
          (joined ("field " ∷ k ∷ ": failed to get lookup data by key " ∷ v ∷ ": " ∷ x ∷ [])) e,
      true,
    )
    | ok val ↦ elim (set_field M k val e) [
      | err x ↦ (
        stack_error (joined ("field " ∷ k ∷ ": key " ∷ v ∷ ": failed to set field: " ∷ x ∷ [])) e,
        true,
      )
      | ok e' ↦ (e', failed)
    ]
  ]

  unfoldable pub lookup_fields : Assoc String String → Event M.Any × Bool → Event M.Any × Bool
  lookup_fields [] r = r
  lookup_fields ((k, v) ∷ rest) r = lookup_fields rest (lookup_field k v r)

  -- The body of `Run`, for the labels and the fields of the settings.
  unfoldable pub lookup_all :
      Assoc String String → Assoc String String → Event M.Any → Event M.Any × Bool
  lookup_all labels fields e = lookup_fields fields (lookup_labels labels (e, false))

  label-Stacked : (k v : String) (r : Event M.Any × Bool) → Stacked r (lookup_label k v r)
  unfolding lookup_label
  label-Stacked k v (e, failed) = elim (Result-cases (get v)) [
    | inr (x, bad) ↦ rw (lookup_label, bad) (Stacked-one e failed _)
    | inl (val, good) ↦ elim (Option-cases (any_to_string L (of_field val)).1) [
      | inr (x, bad) ↦ rw (lookup_label, good, bad) (Stacked-one e failed _)
      | inl fine ↦
          rw (lookup_label, good, fine)
            (Stacked-none (e, failed) (set_label k (any_to_string L (of_field val)).0 e, failed)
              (set_label-errors k _ e) refl)
    ]
  ]

  labels-Stacked :
      (labels : Assoc String String) (r : Event M.Any × Bool) → Stacked r (lookup_labels labels r)
  unfolding lookup_labels
  labels-Stacked [] r = Stacked-none r r refl refl
  labels-Stacked ((k, v) ∷ rest) r =
      Stacked-trans r _ _ (label-Stacked k v r) (labels-Stacked rest (lookup_label k v r))

  field-Stacked : (k v : String) (r : Event M.Any × Bool) → Stacked r (lookup_field k v r)
  unfolding lookup_field
  field-Stacked k v (e, failed) = elim (Result-cases (get v)) [
    | inr (x, bad) ↦ rw (lookup_field, bad) (Stacked-one e failed _)
    | inl (val, good) ↦ elim (Result-cases (set_field M k val e)) [
      | inr (x, bad) ↦ rw (lookup_field, good, bad) (Stacked-one e failed _)
      | inl (e', put) ↦
          rw (lookup_field, good, put)
            (Stacked-none (e, failed) (e', failed) (set_field-errors M k val e e' put) refl)
    ]
  ]

  fields-Stacked :
      (fields : Assoc String String) (r : Event M.Any × Bool) → Stacked r (lookup_fields fields r)
  unfolding lookup_fields
  fields-Stacked [] r = Stacked-none r r refl refl
  fields-Stacked ((k, v) ∷ rest) r =
      Stacked-trans r _ _ (field-Stacked k v r) (fields-Stacked rest (lookup_field k v r))

  -- Whatever the lookup answers, the event is counted as failed exactly if a key that could not be
  -- found or put has stacked an error on it.
  lookup_all-Stacked :
      (labels fields : Assoc String String) (e : Event M.Any)
      → Stacked (e, false) (lookup_all labels fields e)
  unfolding lookup_all
  lookup_all-Stacked labels fields e =
      Stacked-trans _ _ _ (labels-Stacked labels (e, false)) (fields-Stacked fields _)
