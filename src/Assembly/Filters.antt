-- ===== src/Assembly/Filters.antt =====
-- pipeline/pipeline.go: `configureFilters`, and the lookups that plugins want.
use neptunus.Base.{
  String, Bool, true, false, none, some, List, [], ◌∷◌, ◌++◌, lookup, Result, ok, err, ◌==◌,
  string_comparable, if◌then◌else◌, joined,
}
use neptunus.Core.Fields.{Error}
use neptunus.Config
use neptunus.Config.{Value, Plugin, str, bool, uint64, other, table, end, field}
use neptunus.Assembly.Monad.{
  filter, Registry, Conf, pass, lifted, ◌>>=◌, ◌>>◌, failed, nested, claim, found, alias_of,
}
use neptunus.Assembly.Parts.{
  Keepers, Lookups, Plugged, base_of, with_id, prepared, configure_callable,
}

module _ (R : Registry) (p : Config.Pipeline) (keepers : Keepers R) where
  open R use {Object}

  -- One filter that is not "not".
  unfoldable pub configure_filter : String → Plugin → String → Object → Conf (Plugged R)
  unfolding claim configure_callable prepared with_id
  configure_filter plugin cfg parent o = do
    let alias = alias_of cfg (joined ("filter:" ∷ plugin ∷ "::" ∷ parent ∷ []))
    claim alias (plugin ∷ " filter" ∷ [])
    o₁ ← nested (plugin ∷ " filter: " ∷ []) (configure_callable R p keepers cfg alias o)
    o₂ ← lifted (
        prepared R filter "filter" "BaseInput" keepers cfg
          (record (base_of R p alias plugin) { reverse = Config.reverse cfg }) (with_id R cfg o₁))
    pass (record { alias = alias; object = o₂ })

  -- The filters of a "not", wrapped.
  unfoldable pub not_filters : List (Plugged R) → List (Plugged R)
  not_filters [] = []
  not_filters (f ∷ fs) = record f { object = R.wrap_not f.object } ∷ not_filters fs

  -- The body of the loop of `configureFilters`, once the plugin is found: whether it is a "not", its
  -- configuration, and what configures the filters that a "not" wraps.
  unfoldable pub one_filter :
      Bool
      → Plugin
      → (Unit {0} → Conf (List (Plugged R)))
      → String
      → String
      → Object
      → Conf (List (Plugged R))
  unfolding configure_filter not_filters
  one_filter false cfg inner plugin parent o = do
    f ← configure_filter plugin cfg parent o
    pass (f ∷ [])
  one_filter true end inner plugin parent o =
      failed ("not filter requires at least one child filter" ∷ [])
  one_filter true (field k v rest) inner plugin parent o = do
    fs ← nested ("wrapped: " ∷ []) (inner tt)
    pass (not_filters fs)

  abbrev found_filter : String → Result Error Object
  found_filter plugin =
      found (R.get filter plugin)
        ("unknown filter plugin in pipeline configuration: " ∷ plugin ∷ [])

  -- `configureFilters`, over the table of filters itself: `Plugin.Filters` and `Plugin.ToSet` only
  -- put an empty table where a value is none.
  unfoldable pub configure_filters : Plugin → String → Conf (List (Plugged R))
  unfolding found one_filter
  configure_filters end parent = pass []
  configure_filters (field plugin (table cfg) rest) parent = do
    o ← lifted (found_filter plugin)
    fs ←
        one_filter (R.is_not o) cfg (λ _. configure_filters cfg (joined ("not::" ∷ parent ∷ [])))
          plugin parent o
    others ← configure_filters rest parent
    pass (fs ++ others)
  configure_filters (field plugin v rest) parent = do
    o ← lifted (found_filter plugin)
    fs ← one_filter (R.is_not o) end (λ _. pass []) plugin parent o
    others ← configure_filters rest parent
    pass (fs ++ others)

  -- The lookup that a plugin wants, by the name in its configuration.
  unfoldable pub give_lookup : String → Lookups R → String → Plugin → Object → Result Error Object
  unfolding lookup
  give_lookup word lookups plugin cfg o = elim (R.as_set_lookup o) [
    | none ↦ ok o
    | some set ↦
        let name = Config.lookup_name cfg in
        if name == ""
        then err (
            joined
              (plugin ∷ " " ∷ word ∷ ": plugin requires lookup, but no lookup name provided" ∷ []))
        else elim (lookup name lookups) [
          | none ↦ err (
              joined (
                plugin ∷ " " ∷ word ∷ ": plugin requires lookup " ∷ name
                ∷ ", but no such lookup configured" ∷ []))
          | some l ↦ ok (set l)
        ]
  ]
