-- ===== src/Assembly/Stages.antt =====
-- pipeline/pipeline.go: the five stages of `Build`, and the stages in turn.
use neptunus.Base.{
  ℕ, zero, suc, ◌+◌, ◌-◌, String, Option, none, some, List, [], ◌∷◌, ◌++◌, length, insert, Result,
  ok, err, string_comparable, if◌then◌else◌, joined, nat_beq, ◌==◌,
}
use neptunus.Base.Int.{ℤ, pos, negsuc}
use neptunus.Core.Fields.{Error}
use neptunus.Config
use neptunus.Config.{Plugin, PluginSet}
use neptunus.Assembly.{
  keykeeper, lookup_plugin, input, processor, output, Registry, Conf, PlugSet, Plugged, Keepers,
  Lookups, pass, lifted, ◌>>=◌, ◌>>◌, failed, nested, base_of, alias_of, claim, found, prepared,
  configure_callable, give_lookup, with_id, configure_filters,
}

-- The two loops of a stage, over the sets with their index and over the plugins of a set; the
-- accumulator is the field of the pipeline that the stage fills.
unfoldable pub each_plugin :
    {A : Type 0} → (ℕ → String → Plugin → A → Conf A) → ℕ → PluginSet → A → Conf A
each_plugin one index [] a = pass a
each_plugin one index ((plugin, cfg) ∷ rest) a = do
  a' ← one index plugin cfg a
  each_plugin one index rest a'

unfoldable pub each_set :
    {A : Type 0} → (ℕ → String → Plugin → A → Conf A) → ℕ → List PluginSet → A → Conf A
unfolding each_plugin
each_set one index [] a = pass a
each_set one index (set ∷ sets) a = do
  a' ← each_plugin one index set a
  each_set one (index + 1) sets a'

-- The guard of the two stages that want at least one set.
unfoldable pub needed : {A : Type 0} → List PluginSet → String → Conf A → Conf A
needed [] text k = failed (text ∷ [])
needed (set ∷ sets) text k = k

module _ (R : Registry) (p : Config.Pipeline) where
  open R use {Object, print}

  abbrev made_alias : String → String → ℕ → List String → String
  made_alias kind plugin index more = joined (kind ∷ ":" ∷ plugin ∷ ":" ∷ print index ∷ more)

  abbrev unknown : String → String → List String
  unknown kind plugin = "unknown " ∷ kind ∷ " plugin in pipeline configuration: " ∷ plugin ∷ []

  -- The keykeeper "self" is given the configuration.
  abbrev put_config : Object → Object
  put_config o = elim (R.as_set_config o) [ none ↦ o | some set ↦ set p ]

  -- The body of the loops of `configureKeykeepers`.
  unfoldable pub one_keykeeper : ℕ → String → Plugin → Keepers R → Conf (Keepers R)
  unfolding found claim prepared insert
  one_keykeeper index plugin cfg keepers = do
    o ← lifted (found (R.get keykeeper plugin) (unknown "keykeeper" plugin))
    let alias = alias_of cfg (made_alias "keykeeper" plugin index [])
    claim alias (plugin ∷ " keykeeper" ∷ [])
    o₂ ← lifted (
        prepared R keykeeper "keykeeper" "BaseKeykeeper" keepers cfg (base_of R p alias plugin)
          (put_config o))
    pass (insert alias o₂ keepers)

  -- The parser and the serializer are given to the plugin that a lazy lookup wraps.
  unfoldable pub wrapped_callable :
      Option (Object × (Object → Object)) → Keepers R → Plugin → String → Object → Conf Object
  unfolding configure_callable
  wrapped_callable none keepers cfg alias o = configure_callable R p keepers cfg alias o
  wrapped_callable (some (inner, wrap)) keepers cfg alias o = do
    inner' ← configure_callable R p keepers cfg alias inner
    pass (wrap inner')

  -- The body of the loops of `configureLookups`.
  unfoldable pub one_lookup : Keepers R → ℕ → String → Plugin → Lookups R → Conf (Lookups R)
  unfolding found claim prepared wrapped_callable insert
  one_lookup keepers index plugin cfg lookups = do
    o ← lifted (found (R.get lookup_plugin plugin) (unknown "lookup" plugin))
    let alias = alias_of cfg (made_alias "lookup" plugin index [])
    claim alias (plugin ∷ " lookup" ∷ [])
    o₁ ← nested (plugin ∷ " lookup: " ∷ []) (wrapped_callable (R.as_lazy o) keepers cfg alias o)
    o₂ ←
        lifted
          (prepared R lookup_plugin "lookup" "BaseLookup" keepers cfg (base_of R p alias plugin) o₁)
    pass (insert alias o₂ lookups)

  -- The filters of a plugin, where it has a table of them.
  unfoldable pub filters_of : Option Plugin → Keepers R → String → Conf (List (Plugged R))
  unfolding configure_filters
  filters_of none keepers alias = pass []
  filters_of (some filters) keepers alias = configure_filters R p keepers filters alias

  -- The body of the loops of `configureInputs`.
  unfoldable pub one_input :
      Keepers R → Lookups R → ℕ → String → Plugin → List (PlugSet R) → Conf (List (PlugSet R))
  unfolding found claim give_lookup with_id prepared configure_callable filters_of Config.index
  one_input keepers lookups index plugin cfg ins = do
    o ← lifted (found (R.get input plugin) (unknown "input" plugin))
    let alias = alias_of cfg (made_alias "input" plugin index [])
    claim alias (plugin ∷ " input" ∷ [])
    o₁ ← lifted (give_lookup R p keepers "input" lookups plugin cfg o)
    o₂ ← nested (plugin ∷ " input: " ∷ []) (configure_callable R p keepers cfg alias o₁)
    o₃ ← lifted (
        prepared R input "input" "BaseInput" keepers cfg (base_of R p alias plugin)
          (with_id R cfg o₂))
    fs ←
        nested (plugin ∷ " input filters configuration error: " ∷ [])
          (filters_of (Config.table_at "filters" cfg) keepers alias)
    pass (ins ++ record { alias = alias; object = o₃; filters = fs } ∷ [])

  -- The body of the loops of `configureOutputs`.
  unfoldable pub one_output :
      Keepers R → Lookups R → ℕ → String → Plugin → List (PlugSet R) → Conf (List (PlugSet R))
  unfolding found claim give_lookup with_id prepared configure_callable filters_of Config.index
  one_output keepers lookups index plugin cfg outs = do
    o ← lifted (found (R.get output plugin) (unknown "output" plugin))
    let alias = alias_of cfg (made_alias "output" plugin index [])
    claim alias (plugin ∷ " output" ∷ [])
    o₁ ← nested (plugin ∷ " output: " ∷ []) (configure_callable R p keepers cfg alias o)
    o₂ ← lifted (give_lookup R p keepers "output" lookups plugin cfg o₁)
    o₃ ← lifted (
        prepared R output "output" "BaseOutput" keepers cfg (base_of R p alias plugin)
          (with_id R cfg o₂))
    fs ←
        nested (plugin ∷ " output filters configuration error: " ∷ [])
          (filters_of (Config.table_at "filters" cfg) keepers alias)
    pass (outs ++ record { alias = alias; object = o₃; filters = fs } ∷ [])

  -- The test of a mixer's place.
  unfoldable pub mixer_place : ℕ → Object → Result Error (Unit {0})
  mixer_place index o =
      if R.is_mixer o
      then (if nat_beq index 0
          then err "mixer must never be the first processor"
          else if nat_beq index (length p.processors - 1)
          then err "mixer must never be the last processor"
          else ok tt)
      else ok tt

  abbrev pub put_line : ℕ → Object → Object
  put_line line o = elim (R.as_set_line o) [ none ↦ o | some set ↦ set line ]

  -- The body of the inner loops of `configureProcessors`, on a line.
  unfoldable pub one_processor :
      Keepers R → Lookups R → ℕ → ℕ → String → Plugin → List (PlugSet R) → Conf (List (PlugSet R))
  unfolding found claim give_lookup with_id prepared configure_callable filters_of mixer_place
      Config.index
  one_processor keepers lookups line index plugin cfg sets = do
    o ← lifted (found (R.get processor plugin) (unknown "processor" plugin))
    let alias =
        if Config.alias cfg == ""
        then made_alias "processor" plugin index (":" ∷ print line ∷ [])
        else joined (Config.alias cfg ∷ ":" ∷ print line ∷ [])
    claim alias (plugin ∷ " processor" ∷ [])
    o₁ ← nested (plugin ∷ " processor: " ∷ []) (configure_callable R p keepers cfg alias o)
    o₂ ← lifted (give_lookup R p keepers "processor" lookups plugin cfg o₁)
    o₃ ← lifted (
        prepared R processor "processor" "BaseProcessor" keepers cfg (base_of R p alias plugin)
          (put_line line (with_id R cfg o₂)))
    lifted (mixer_place index o₃)
    fs ←
        nested (plugin ∷ " processor filters configuration error: " ∷ [])
          (filters_of (Config.table_at "filters" cfg) keepers alias)
    pass (sets ++ record { alias = alias; object = o₃; filters = fs } ∷ [])

  unfoldable pub configure_keykeepers : Conf (Keepers R)
  unfolding each_set one_keykeeper
  configure_keykeepers = each_set one_keykeeper 0 p.keykeepers []

  unfoldable pub configure_lookups : Keepers R → Conf (Lookups R)
  unfolding each_set one_lookup
  configure_lookups keepers = each_set (one_lookup keepers) 0 p.lookups []

  unfoldable pub configure_inputs : Keepers R → Lookups R → Conf (List (PlugSet R))
  unfolding each_set one_input needed
  configure_inputs keepers lookups =
      needed p.inputs "at least one input required"
        (each_set (one_input keepers lookups) 0 p.inputs [])

  -- The loop over the lines, with the number of the first and of those left.
  unfoldable pub each_line :
      Keepers R → Lookups R → ℕ → ℕ → List (List (PlugSet R)) → Conf (List (List (PlugSet R)))
  unfolding each_set one_processor
  each_line keepers lookups line zero procs = pass procs
  each_line keepers lookups line (suc n) procs = do
    sets ← each_set (one_processor keepers lookups line) 0 p.processors []
    each_line keepers lookups (line + 1) n (procs ++ sets ∷ [])

  abbrev pub line_count : ℤ → ℕ
  line_count (pos n) = n
  line_count (negsuc n) = 0

  unfoldable pub configure_processors : Keepers R → Lookups R → Conf (List (List (PlugSet R)))
  unfolding each_line
  configure_processors keepers lookups =
      each_line keepers lookups 0 (line_count p.settings.lines) []

  unfoldable pub configure_outputs : Keepers R → Lookups R → Conf (List (PlugSet R))
  unfolding each_set one_output needed
  configure_outputs keepers lookups =
      needed p.outputs "at least one output required"
        (each_set (one_output keepers lookups) 0 p.outputs [])

-- The fields of a pipeline that the stages fill.
pub record Assembled (R : Registry) : Type 0 where
  pub keepers : Keepers R
  pub lookups : Lookups R
  pub ins : List (PlugSet R)
  pub procs : List (List (PlugSet R))
  pub outs : List (PlugSet R)

-- The stages in the order of `Build` and of `Test`, from a pipeline that has no plugins yet.
unfoldable pub configure : (R : Registry) → Config.Pipeline → Conf (Assembled R)
unfolding configure_keykeepers configure_lookups configure_inputs configure_processors
    configure_outputs
configure R p = do
  keepers ← configure_keykeepers R p
  lookups ← configure_lookups R p keepers
  ins ← configure_inputs R p keepers lookups
  procs ← configure_processors R p keepers lookups
  outs ← configure_outputs R p keepers lookups
  pass (record { keepers = keepers; lookups = lookups; ins = ins; procs = procs; outs = outs })

-- The error of `Build`, if there is one.
unfoldable pub build_error : Registry → Config.Pipeline → Option Error
unfolding configure
build_error R p = elim (configure R p []) [ ok parts ↦ none | err e ↦ some e ]
