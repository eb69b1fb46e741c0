-- ===== src/Processors/Parsing.antt =====
-- plugins/processors/parser/parser.go, with common/ider/ider.go beside it: the events that the processor parser makes
-- of a field.
pub mod Spread
pub mod Hooks
use neptunus.Base.{
  ℕ, zero, suc, ◌+◌, String, Bool, true, false, Option, none, some, List, [], ◌∷◌, ◌++◌, Result, ok,
  err, ◌==◌, string_comparable, if◌then◌else◌, joined,
}
use neptunus.Core.Fields.{Error, MapPath}
use neptunus.Core.Event.{
  Event, Heap, clone, get_label, get_field, set_field, delete_field, stack_error,
}

-- `Ider`, as `Init` leaves it.
pub data Source : Type 0 where
  no_source label_source field_source : Source

pub record Ider : Type 0 where
  pub source : Source
  pub path : String

pub data Behaviour : Type 0 where
  merge produce : Behaviour

pub record Parser : Type 0 where
  pub behaviour : Behaviour
  pub from : String
  pub to : String
  pub drop_origin : Bool
  pub ider : Ider

-- `Ider.Init`. `match` is the regular expression of `idConfigPattern`.
unfoldable pub init_ider : (String → Option (String × String)) → String → Result Error Ider
init_ider match id_from =
    if id_from == "" then ok (record { source = no_source; path = "" }) else elim (match id_from) [
      | none ↦ err "id_from: bad format, expected 'source:path'"
      | some found ↦
          if found.0 == "label"
          then ok (record { source = label_source; path = found.1 })
          else if found.0 == "field"
          then ok (record { source = field_source; path = found.1 })
          else err (
              joined ("id_from: unknown type: " ∷ found.0 ∷ "; expected one of: label, field" ∷ []))
    ]

-- `Parser.Init`.
unfoldable pub init_parser :
    (String → Option (String × String))
    → String
    → String
    → String
    → Bool
    → String
    → Result Error Parser
unfolding init_ider
init_parser match behaviour from to drop_origin id_from =
    if from == "" then err "from field required" else elim (init_ider match id_from) [
      | err e ↦ err e
      | ok ider ↦
          let p : Behaviour → Parser = λ b. record {
            behaviour = b;
            from = from;
            to = if to == "" then "." else to;
            drop_origin = drop_origin;
            ider = ider;
          } in
          if behaviour == "merge"
          then ok (p merge)
          else if behaviour == "produce"
          then ok (p produce)
          else err (
              joined
                ("forbidden behaviour: " ∷ behaviour ∷ "; expected one of: merge, produce" ∷ []))
    ]

module _ (M : MapPath) where
  open M use {Any}

  -- What is used of values and of the parser of the configuration: the bytes of a text or of a slice of
  -- bytes, the id that a number or a text makes, and the parser's result, the bodies of its events.
  pub record Parsing : Type 1 where
    pub Bytes : Type 0
    pub bytes_of : Any → Option Bytes
    pub id_of : Any → Option String
    pub parse : Bytes → String → Result Error (List Any)

  -- What is sent to the two channels.
  pub record Sent : Type 0 where
    pub out : List (Event Any)
    pub drop : List (Event Any)

  module _ (P : Parsing) where
    abbrev with_id : Option String → Event Any → Event Any
    with_id none e = e
    with_id (some id) e = record e { id = id }

    abbrev field_id : Result Error Any → Option String
    field_id (err x) = none
    field_id (ok v) = P.id_of v

    -- `Ider.Apply`.
    unfoldable pub apply_ider : Ider → Event Any → Event Any
    unfolding get_label get_field
    apply_ider i e = elim i.source [
      | no_source ↦ e
      | label_source ↦ with_id (get_label i.path e) e
      | field_source ↦ with_id (field_id (get_field M i.path e)) e
    ]

    -- The loop of the behaviour `produce`; `new_uuid` has the identifier of each copy.
    unfoldable pub produce_each :
        Ider → (ℕ → ℕ) → ℕ → List Any → Event Any → Heap → List (Event Any) × Heap
    unfolding clone apply_ider
    produce_each i new_uuid n [] e h = ([], h)
    produce_each i new_uuid n (donor ∷ donors) e h =
        let (event, h') = clone M (new_uuid n) e h in
        let (rest, h'') = produce_each i new_uuid (suc n) donors e h' in
        (apply_ider i (record event { body = donor }) ∷ rest, h'')

    abbrev or_same : Event Any → Result Error (Event Any) → Event Any
    or_same e (ok e') = e'
    or_same e (err x) = e

    -- A copy without the field, if the origin is to be dropped: an error is not looked at.
    unfoldable pub strip : Parser → Event Any → Event Any
    unfolding delete_field
    strip p event = if p.drop_origin then or_same event (delete_field M p.from event) else event

    -- The loop of the behaviour `merge`: what it sends, and the error that ends it.
    unfoldable pub merge_each :
        Parser → (ℕ → ℕ) → ℕ → List Any → Event Any → Heap → (Sent × Option Error) × Heap
    unfolding clone strip set_field
    merge_each p new_uuid n [] e h = ((record { out = []; drop = [] }, none), h)
    merge_each p new_uuid n (donor ∷ donors) e h =
        let (event, h') = clone M (new_uuid n) e h in
        let ((rest, failed), h'') = merge_each p new_uuid (suc n) donors e h' in
        elim (set_field M p.to donor (strip p event)) [
          | err x ↦ ((record { out = []; drop = strip p event ∷ [] }, some x), h')
          | ok event' ↦ ((record { out = event' ∷ rest.out; drop = rest.drop }, failed), h'')
        ]

    abbrev merged : Event Any → Sent × Option Error → Sent
    merged e (sent, none) = record sent { drop = sent.drop ++ e ∷ [] }
    merged e (sent, some x) = record sent {
      out = sent.out ++ stack_error (joined ("error set field: " ∷ x ∷ [])) e ∷ [];
    }

    -- The `switch` on the behaviour, for the bodies that were parsed.
    unfoldable pub spread : Parser → (ℕ → ℕ) → List Any → Event Any → Heap → Sent × Heap
    unfolding produce_each merge_each stack_error
    spread p new_uuid donors e h = elim p.behaviour [
      | produce ↦
          let (events, h') = produce_each p.ider new_uuid 0 donors e h in
          (
            if p.drop_origin
                then record { out = events; drop = e ∷ [] }
                else record { out = events ++ e ∷ []; drop = [] },
            h',
          )
      | merge ↦ let (r, h') = merge_each p new_uuid 0 donors e h in (merged e r, h')
    ]

    abbrev alone : Event Any → Sent
    alone e = record { out = e ∷ []; drop = [] }

    -- The body of `Run`.
    unfoldable pub parse_event : Parser → (ℕ → ℕ) → Event Any → Heap → Sent × Heap
    unfolding get_field stack_error spread
    parse_event p new_uuid e h = elim (get_field M p.from e) [
      | err x ↦ (alone e, h)
      | ok raw ↦ elim (P.bytes_of raw) [
        | none ↦ (alone e, h)
        | some field ↦ elim (P.parse field e.routing_key) [
          | err x ↦ (alone (stack_error x e), h)
          | ok donors ↦ spread p new_uuid donors e h
        ]
      ]
    ]
