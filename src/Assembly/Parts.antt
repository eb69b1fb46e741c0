-- ===== src/Assembly/Parts.antt =====
-- pipeline/pipeline.go: the steps that all plugins go through, parsers and serializers.
use neptunus.Base.{
  String, false, Option, none, some, List, [], ◌∷◌, Assoc, lookup, Result, ok, err,
  string_comparable, joined,
}
use neptunus.Core.Fields.{Error}
use neptunus.Config
use neptunus.Config.{Value, Plugin, str, bool, uint64, other, table, end, field}
use neptunus.Assembly.Monad.{
  Kind, parser, serializer, compressor, decompressor, BasePlugin, Registry, Conf, pass, lifted,
  ◌>>=◌, ◌>>◌, failed, nested, claim, found, alias_of,
}

module _ (R : Registry) where
  open R use {Object}

  abbrev pub Keepers : Type 0
  Keepers = Assoc String Object

  abbrev pub Lookups : Type 0
  Lookups = Assoc String Object

  -- A plugin with its alias, and a set of a plugin with its filters.
  pub record Plugged : Type 0 where
    pub alias : String
    pub object : Object

  pub record PlugSet : Type 0 where
    pub alias : String
    pub object : Object
    pub filters : List Plugged

  -- `decodeHook`: a text of the form "@{keeper:key}" is replaced by what the keykeeper has.
  unfoldable pub decode_hook : Keepers → Value → Result Error Value
  unfolding lookup
  decode_hook keepers (str s) = elim (R.match_key s) [
    | none ↦ ok (str s)
    | some m ↦ elim (lookup m.0 keepers) [
      | none ↦ err (
          joined ("keykeeper not specified in configuration or still not initialized: " ∷ m.0 ∷ []))
      | some k ↦ elim (R.get_key k m.1) [
        | ok v ↦ ok v
        | err e ↦
            err (joined ("error reading key " ∷ m.1 ∷ " using " ∷ m.0 ∷ " keykeeper: " ∷ e ∷ []))
      ]
    ]
  ]
  decode_hook keepers v = ok v

  abbrev pub base_of : Config.Pipeline → String → String → BasePlugin
  base_of p alias plugin = record {
    alias = alias;
    plugin = plugin;
    pipeline = p.settings.id;
    reverse = false;
  }

  -- The id of a plugin's configuration is given to a plugin that wants it.
  unfoldable pub with_id : Plugin → Object → Object
  unfolding Config.plugin_id
  with_id cfg o = elim (R.as_set_id o) [
    | none ↦ o
    | some set ↦ set (Config.plugin_id cfg (R.draw cfg)).0
  ]

  -- The steps that every plugin goes through: its base is set, its configuration decoded into it,
  -- and it is initialised. The words are those of the errors.
  unfoldable pub based : Kind → String → String → BasePlugin → Object → Result Error Object
  unfolding found
  based kind word base_word b o =
      found (R.set_base kind b o)
        (b.plugin ∷ " " ∷ word ∷ " plugin does not contains " ∷ base_word ∷ [])

  unfoldable pub prepared :
      Kind → String → String → Keepers → Plugin → BasePlugin → Object → Result Error Object
  unfolding based decode_hook
  prepared kind word base_word keepers cfg b o = elim (based kind word base_word b o) [
    | err e ↦ err e
    | ok o₁ ↦ elim (R.decode (decode_hook keepers) cfg o₁) [
      | err e ↦ err (joined (b.plugin ∷ " " ∷ word ∷ " configuration mapping error: " ∷ e ∷ []))
      | ok o₂ ↦ elim (R.init o₂) [
        | err e ↦ err (joined (b.plugin ∷ " " ∷ word ∷ " initialization error: " ∷ e ∷ []))
        | ok o₃ ↦ ok o₃
      ]
    ]
  ]

  -- A compressor or a decompressor, which has no base and no alias.
  abbrev attached :
      Kind
      → String
      → String
      → String
      → Keepers
      → Option (Plugin × String)
      → Result Error (Option Object)
  attached kind plugin word word' keepers none = ok none
  attached kind plugin word word' keepers (some (cfg, name)) = elim (R.get kind name) [
    | none ↦ err (
        joined (
          plugin ∷ " " ∷ word ∷ ": unknown " ∷ word' ∷ " plugin in pipeline configuration: " ∷ name
          ∷ []))
    | some o ↦ elim (R.decode (decode_hook keepers) cfg o) [
      | err e ↦ err (
          joined (
            plugin ∷ " " ∷ word ∷ ": " ∷ name ∷ " " ∷ word' ∷ ": configuration mapping error: " ∷ e
            ∷ []))
      | ok o₁ ↦ elim (R.init o₁) [
        | err e ↦ err (
            joined (
              plugin ∷ " " ∷ word ∷ ": " ∷ name ∷ " " ∷ word' ∷ ": initialization error: " ∷ e
              ∷ []))
        | ok o₂ ↦ ok (some o₂)
      ]
    ]
  ]

  module _ (p : Config.Pipeline) (keepers : Keepers) where
    unfoldable pub configure_parser : Plugin → String → Conf (Object × Option Object)
    unfolding found claim prepared with_id
    configure_parser cfg parent = do
      let plugin = Config.plugin_type cfg
      let alias = alias_of cfg (joined ("parser:" ∷ plugin ∷ "::" ∷ parent ∷ []))
      o ← lifted (
          found (R.get parser plugin)
            ("unknown parser plugin in pipeline configuration: " ∷ plugin ∷ []))
      claim alias (plugin ∷ " parser" ∷ [])
      o' ← lifted (
          prepared parser "parser" "BaseParser" keepers cfg (base_of p alias plugin)
            (with_id cfg o))
      d ←
          lifted
            (attached decompressor plugin "parser" "decompressor" keepers (Config.decompressor cfg))
      pass (o', d)

    unfoldable pub configure_serializer : Plugin → String → Conf (Object × Option Object)
    unfolding found claim prepared with_id
    configure_serializer cfg parent = do
      let plugin = Config.plugin_type cfg
      let alias = alias_of cfg (joined ("serializer:" ∷ plugin ∷ "::" ∷ parent ∷ []))
      o ← lifted (
          found (R.get serializer plugin)
            ("unknown serializer plugin in pipeline configuration: " ∷ plugin ∷ []))
      claim alias (plugin ∷ " serializer" ∷ [])
      o' ← lifted (
          prepared serializer "serializer" "BaseSerializer" keepers cfg (base_of p alias plugin)
            (with_id cfg o))
      c ←
          lifted
            (attached compressor plugin "serializer" "compressor" keepers (Config.compressor cfg))
      pass (o', c)

    -- The two halves of `configureCallable`: what is set in the plugin, if it can be, and from what
    -- configuration.
    unfoldable pub with_serializer :
        Option (Object → Option Object → Object) → Option Plugin → String → Object → Conf Object
    unfolding configure_serializer
    with_serializer none cfg alias o = pass o
    with_serializer (some set) none alias o =
        failed ("plugin requires serializer, but no serializer configuration provided" ∷ [])
    with_serializer (some set) (some cfg) alias o = do
      s ← nested ("serializer configuration error: " ∷ []) (configure_serializer cfg alias)
      pass (set s.0 s.1)

    unfoldable pub with_parser :
        Option (Object → Option Object → Object) → Option Plugin → String → Object → Conf Object
    unfolding configure_parser
    with_parser none cfg alias o = pass o
    with_parser (some set) none alias o =
        failed ("plugin requires parser, but no parser configuration provided" ∷ [])
    with_parser (some set) (some cfg) alias o = do
      s ← nested ("parser configuration error: " ∷ []) (configure_parser cfg alias)
      pass (set s.0 s.1)

    unfoldable pub configure_callable : Plugin → String → Object → Conf Object
    unfolding with_serializer with_parser
    configure_callable cfg alias o = do
      o' ← with_serializer (R.as_set_serializer o) (Config.serializer cfg) alias o
      with_parser (R.as_set_parser o') (Config.parser cfg) alias o'
