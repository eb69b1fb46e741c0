-- ===== src/Processors/Converter/Setup.antt =====
-- plugins/processors/converter/converter.go: the conversions that the settings ask for.
use neptunus.Base.{
  ◌≡◌, refl, ap, ◌∙◌, sym, String, Bool, Option, none, some, List, [], ◌∷◌, ◌++◌, Result, ok, err,
  append_assoc, append-nil, ◌==◌, string_comparable, if◌then◌else◌, joined, Result-cases,
  Option-cases, inl, inr,
}
use neptunus.Core.Fields.{Error}
use neptunus.Processors.Converter.{
  From, To, to_id, to_routing_key, to_timestamp, to_label, to_string, to_integer, to_unsigned,
  to_float, to_boolean, to_time, to_duration, ConversionParams,
}

pub record Settings : Type 0 where
  pub ignore_out_of_range : Bool
  pub id : String
  pub timestamp : String
  pub routing_key : String
  pub label : List String
  pub string : List String
  pub integer : List String
  pub unsigned : List String
  pub float : List String
  pub boolean : List String
  pub time : List String
  pub duration : List String

-- `defaultLayout`.
unfoldable pub default_layout : String → String
default_layout layout = if layout == "" then "2006-01-02T15:04:05.999999999Z07:00" else layout

-- What `targetObjectPattern` finds: the source, the path and the layout, which may be empty. The source
-- is one of the words that `fromFromString` has.
module _ (match : String → Option (From × (String × String))) (s : Settings) where
  -- `initConversionParam`.
  unfoldable pub init_param :
      String → To → List ConversionParams → Result Error (List ConversionParams)
  unfolding default_layout
  init_param raw to conversions = elim (match raw) [
    | none ↦ err (joined ("configured value " ∷ raw ∷ " does not match pattern" ∷ []))
    | some found ↦ ok (
        conversions
        ++ record {
          from = found.0;
          to = to;
          path = found.1.0;
          tlyt = default_layout found.1.1;
          ioor = s.ignore_out_of_range;
        }
          ∷ [])
  ]

  -- A loop of `Init` over the values for one type, with the type's name before an error.
  unfoldable pub init_params :
      String → To → List String → List ConversionParams → Result Error (List ConversionParams)
  init_params name to [] conversions = ok conversions
  init_params name to (raw ∷ rest) conversions = elim (init_param raw to conversions) [
    | err x ↦ err (joined (name ∷ ": " ∷ x ∷ []))
    | ok more ↦ init_params name to rest more
  ]

  -- A value that may be left out.
  abbrev pub one : String → List String
  one v = if v == "" then [] else v ∷ []

  -- The values of the settings, in the order in which `Init` reads them.
  abbrev pub wanted : List (String × (To × List String))
  wanted =
      ("id", (to_id, one s.id))
      ∷ ("timestamp", (to_timestamp, one s.timestamp))
      ∷ ("routing_key", (to_routing_key, one s.routing_key))
      ∷ ("label", (to_label, s.label))
      ∷ ("string", (to_string, s.string))
      ∷ ("integer", (to_integer, s.integer))
      ∷ ("unsigned", (to_unsigned, s.unsigned))
      ∷ ("float", (to_float, s.float))
      ∷ ("boolean", (to_boolean, s.boolean))
      ∷ ("time", (to_time, s.time))
      ∷ ("duration", (to_duration, s.duration))
      ∷ []

  unfoldable pub init_wanted :
      List (String × (To × List String))
      → List ConversionParams
      → Result Error (List ConversionParams)
  init_wanted [] conversions = ok conversions
  init_wanted ((name, (to, values)) ∷ rest) conversions =
      elim (init_params name to values conversions) [
        | err x ↦ err x
        | ok more ↦ init_wanted rest more
      ]

  -- `Init`.
  unfoldable pub init : Result Error (List ConversionParams)
  unfolding init_wanted
  init = init_wanted wanted []

-- The types of conversions, in order.
abbrev pub types : List ConversionParams → List To
types [] = []
types (c ∷ cs) = c.to ∷ types cs

-- One type for each value, in front of others.
abbrev each : To → List String → List To → List To
each to [] others = others
each to (v ∷ vs) others = to ∷ each to vs others

-- The types that are asked for, in order.
abbrev pub asked : List (String × (To × List String)) → List To
asked [] = []
asked ((name, (to, values)) ∷ rest) = each to values (asked rest)

types-append : (cs ds : List ConversionParams) → types (cs ++ ds) ≡ types cs ++ types ds
types-append [] ds = refl
types-append (c ∷ cs) ds = ap (λ ts. c.to ∷ ts) (types-append cs ds)

module _ (match : String → Option (From × (String × String))) (s : Settings) where
  params-types :
      (name : String) (to : To) (values : List String) (cs ds : List ConversionParams)
      (others : List To)
      → init_params match s name to values cs ≡ ok ds
      → types ds ++ others ≡ types cs ++ each to values others
  unfolding init_params init_param
  params-types name to [] cs ds others h = ap (λ r. types r ++ others) (let q = h in cc)
  params-types name to (raw ∷ rest) cs ds others h = elim (Option-cases (match raw)) [
    | inl other ↦ (let q = rw (other, init_params, init_param) at h in absurd cc)
    | inr (found, there) ↦
        (let q = rw (there, init_params, init_param) at h in
          let p = params-types name to rest _ ds others q in
          p
          ∙ ap (λ ts. ts ++ each to rest others) (types-append cs _)
          ∙ append_assoc (types cs) (to ∷ []) (each to rest others))
  ]

  wanted-types :
      (ws : List (String × (To × List String))) (cs ds : List ConversionParams)
      → init_wanted match s ws cs ≡ ok ds
      → types ds ≡ types cs ++ asked ws
  unfolding init_wanted
  wanted-types [] cs ds h = ap types (let q = h in cc) ∙ sym (append-nil (types cs))
  wanted-types ((name, (to, values)) ∷ rest) cs ds h =
      elim (Result-cases (init_params match s name to values cs)) [
        | inr (x, bad) ↦ (let q = rw (bad, init_wanted) at h in absurd cc)
        | inl (more, good) ↦
            wanted-types rest more ds (rw (good, init_wanted) at h)
            ∙ params-types name to values cs more (asked rest) good
      ]

  -- If `Init` succeeds, it has made one conversion for each value of the settings, to the type under which
  -- the value stands, those of one type together and the types in the order id, timestamp, routing key,
  -- label, string, integer, unsigned, float, boolean, time and duration.
  init-types :
      (conversions : List ConversionParams)
      → init match s ≡ ok conversions
      → types conversions ≡ asked (wanted match s)
  unfolding init
  init-types conversions h = wanted-types (wanted match s) [] conversions h
