-- ===== src/Processors/Template.antt =====
-- plugins/processors/template/template.go: an event's id, routing key, labels and fields from templates.
use neptunus.Base.{
  String, Bool, true, false, Option, none, some, [], ◌∷◌, Assoc, Result, ok, err, joined,
}
use neptunus.Core.Fields.{Error, MapPath}
use neptunus.Core.Event.{Event, set_label, set_field, stack_error}
use neptunus.Processors.Failing.{
  Stacked, Stacked-none, Stacked-one, Stacked-trans, set_label-errors, set_field-errors,
}
use neptunus.Base.{◌==◌, string_comparable, if◌then◌else◌, refl, Result-cases, inl, inr, ◌≡◌}

module _ (M : MapPath) where
  open M use {Any}

  -- A template that has been parsed: what `Execute` writes for an event.
  abbrev pub Executable : Type 0
  Executable = Event Any → Result Error String

  pub record Template : Type 0 where
    pub id : Option Executable
    pub routing_key : Option Executable
    pub labels : Assoc String Executable
    pub fields : Assoc String Executable

  -- What is used of text/template, and a text as a value of a field.
  pub record Templates : Type 0 where
    pub parse : String → String → Result Error Executable
    pub of_text : String → Any

  module _ (T : Templates) where
    -- A template that may be left out, by the first two parts of `Init`.
    unfoldable pub init_one : String → String → Result Error (Option Executable)
    init_one name body =
        if body == ""
        then ok none
        else elim (T.parse name body) [ ok t ↦ ok (some t) | err x ↦ err x ]

    -- The two loops of `Init`.
    unfoldable pub init_each : String → Assoc String String → Result Error (Assoc String Executable)
    init_each kind [] = ok []
    init_each kind ((name, body) ∷ rest) =
        let others = init_each kind rest in
        elim (T.parse (joined (kind ∷ name ∷ [])) body) [
          | err x ↦ err x
          | ok t ↦ elim others [ err x ↦ err x | ok ts ↦ ok ((name, t) ∷ ts) ]
        ]

    -- `Init`, on the settings id, routing_key, labels and fields.
    unfoldable pub init :
        String → String → Assoc String String → Assoc String String → Result Error Template
    unfolding init_one init_each
    init id routing_key labels fields = elim (init_one "id" id) [
      | err x ↦ err x
      | ok i ↦ elim (init_one "routingKey" routing_key) [
        | err x ↦ err x
        | ok rk ↦ elim (init_each "labels::" labels) [
          | err x ↦ err x
          | ok ls ↦ elim (init_each "fields::" fields) [
            | err x ↦ err x
            | ok fs ↦ ok (record { id = i; routing_key = rk; labels = ls; fields = fs })
          ]
        ]
      ]
    ]

    -- A template is executed, and what it writes is put into the event, if there is no error.
    unfoldable pub execute :
        (String → Event Any → Event Any) → Executable → Event Any × Bool → Event Any × Bool
    execute put t (e, failed) = elim (t e) [
      | err x ↦ (stack_error x e, true)
      | ok s ↦ (put s e, failed)
    ]

    unfoldable pub execute_option :
        (String → Event Any → Event Any) → Option Executable → Event Any × Bool → Event Any × Bool
    execute_option put none r = r
    execute_option put (some t) r = execute put t r

    unfoldable pub execute_labels : Assoc String Executable → Event Any × Bool → Event Any × Bool
    execute_labels [] r = r
    execute_labels ((label, t) ∷ rest) r = execute_labels rest (execute (set_label label) t r)

    unfoldable pub execute_field : String → Executable → Event Any × Bool → Event Any × Bool
    execute_field field t (e, failed) = elim (t e) [
      | err x ↦ (stack_error x e, true)
      | ok s ↦ elim (set_field M field (T.of_text s) e) [
        | err x ↦ (stack_error x e, true)
        | ok e' ↦ (e', failed)
      ]
    ]

    unfoldable pub execute_fields : Assoc String Executable → Event Any × Bool → Event Any × Bool
    execute_fields [] r = r
    execute_fields ((field, t) ∷ rest) r = execute_fields rest (execute_field field t r)

    abbrev with_id : String → Event Any → Event Any
    with_id s e = record e { id = s }

    abbrev with_key : String → Event Any → Event Any
    with_key s e = record e { routing_key = s }

    -- The body of `Run`: the event that is sent, and whether it is counted as failed.
    unfoldable pub execute_all : Template → Event Any → Event Any × Bool
    execute_all p e = execute_fields p.fields (
        execute_labels p.labels
          (execute_option with_key p.routing_key (execute_option with_id p.id (e, false))))

    execute-Stacked :
        (put : String → Event Any → Event Any) (t : Executable) (r : Event Any × Bool)
        → ((s : String) (e : Event Any) → (put s e).errors ≡ e.errors)
        → Stacked r (execute put t r)
    unfolding execute
    execute-Stacked put t (e, failed) h = elim (Result-cases (t e)) [
      | inl (s, good) ↦ rw (execute, good) (Stacked-none (e, failed) (put s e, failed) (h s e) refl)
      | inr (x, bad) ↦ rw (execute, bad) (Stacked-one e failed x)
    ]

    option-Stacked :
        (put : String → Event Any → Event Any) (t : Option Executable) (r : Event Any × Bool)
        → ((s : String) (e : Event Any) → (put s e).errors ≡ e.errors)
        → Stacked r (execute_option put t r)
    unfolding execute_option
    option-Stacked put none r h = Stacked-none r r refl refl
    option-Stacked put (some t) r h = execute-Stacked put t r h

    labels-Stacked :
        (ts : Assoc String Executable) (r : Event Any × Bool) → Stacked r (execute_labels ts r)
    unfolding execute_labels
    labels-Stacked [] r = Stacked-none r r refl refl
    labels-Stacked ((label, t) ∷ rest) r =
        Stacked-trans r _ _ (execute-Stacked (set_label label) t r (set_label-errors label))
          (labels-Stacked rest (execute (set_label label) t r))

    field-Stacked :
        (field : String) (t : Executable) (r : Event Any × Bool)
        → Stacked r (execute_field field t r)
    unfolding execute_field
    field-Stacked field t (e, failed) = elim (Result-cases (t e)) [
      | inr (x, bad) ↦ rw (execute_field, bad) (Stacked-one e failed x)
      | inl (s, good) ↦ elim (Result-cases (set_field M field (T.of_text s) e)) [
        | inr (x, bad) ↦ rw (execute_field, good, bad) (Stacked-one e failed x)
        | inl (e', put) ↦
            rw (execute_field, good, put)
              (Stacked-none (e, failed) (e', failed) (set_field-errors M field _ e e' put) refl)
      ]
    ]

    fields-Stacked :
        (ts : Assoc String Executable) (r : Event Any × Bool) → Stacked r (execute_fields ts r)
    unfolding execute_fields
    fields-Stacked [] r = Stacked-none r r refl refl
    fields-Stacked ((field, t) ∷ rest) r =
        Stacked-trans r _ _ (field-Stacked field t r)
          (fields-Stacked rest (execute_field field t r))

    -- Whatever the templates do, the event that is sent is counted as failed exactly if one of them, or
    -- the setting of a field, has stacked an error on it.
    execute_all-Stacked : (p : Template) (e : Event Any) → Stacked (e, false) (execute_all p e)
    unfolding execute_all
    execute_all-Stacked p e =
        Stacked-trans _ _ _ (option-Stacked with_id p.id (e, false) (λ s d. refl)) (
          Stacked-trans _ _ _ (option-Stacked with_key p.routing_key _ (λ s d. refl))
            (Stacked-trans _ _ _ (labels-Stacked p.labels _) (fields-Stacked p.fields _)))
