-- ===== src/Assembly/Unique.antt =====
-- pipeline/pipeline.go: what the configure methods that the stages share do to the aliases.
use neptunus.Base.{
  String, refl, List, [], ◌∷◌, ◌++◌, ◌≡◌, Option, none, some, joined, Bool, true, false,
}
use neptunus.Config
use neptunus.Config.{Plugin, table, end, field}
use neptunus.Assembly.{
  Registry, Aliases, Conf, ◌>>=◌, pass, Plugged, Keepers, alias_of, configure_parser,
  configure_serializer, configure_callable, with_serializer, with_parser, one_filter,
  configure_filter, configure_filters, not_filters,
}
use neptunus.Assembly.Claims.{
  Claims, Claims-pass, Claims-failed, Claims-nested, Claims-lifted, Claims-bind, Claims-claim,
  Claims-hidden, Claims-frame,
}

-- The aliases of the filters of a plugin.
unfoldable pub filter_aliases : {R : Registry} → List (Plugged R) → Aliases
filter_aliases [] = []
filter_aliases (f ∷ fs) = f.alias ∷ filter_aliases fs

module _ (R : Registry) (p : Config.Pipeline) (keepers : Keepers R) where
  abbrev made_name : String → Plugin → String → String
  made_name kind cfg parent =
      alias_of cfg (joined (kind ∷ Config.plugin_type cfg ∷ "::" ∷ parent ∷ []))

  configure_parser-Claims :
      (cfg : Plugin) (parent : String)
      → Claims []
          (λ x. made_name "parser:" cfg parent ∷ [])
          (configure_parser R p keepers cfg parent)
  unfolding configure_parser
  configure_parser-Claims cfg parent = Claims-lifted _ _ _ _ λ o.
      Claims-bind _ _ _ _ _ (Claims-claim _ _ (Config.plugin_type cfg ∷ " parser" ∷ []))
        λ _. Claims-lifted _ _ _ _ λ o'. Claims-lifted _ _ _ _ λ d. Claims-pass _ _ _ refl

  configure_serializer-Claims :
      (cfg : Plugin) (parent : String)
      → Claims []
          (λ x. made_name "serializer:" cfg parent ∷ [])
          (configure_serializer R p keepers cfg parent)
  unfolding configure_serializer
  configure_serializer-Claims cfg parent = Claims-lifted _ _ _ _ λ o.
      Claims-bind _ _ _ _ _ (Claims-claim _ _ (Config.plugin_type cfg ∷ " serializer" ∷ []))
        λ _. Claims-lifted _ _ _ _ λ o'. Claims-lifted _ _ _ _ λ d. Claims-pass _ _ _ refl

  with_serializer-Claims :
      (set : Option (R.Object → Option R.Object → R.Object)) (cfg : Option Plugin) (alias : String)
      (o : R.Object)
      → Claims [] (λ x. []) (with_serializer R p keepers set cfg alias o)
  unfolding with_serializer
  with_serializer-Claims none cfg alias o = Claims-pass _ _ _ refl
  with_serializer-Claims (some set) none alias o = Claims-failed _ _ _
  with_serializer-Claims (some set) (some cfg) alias o =
      Claims-bind _ _ _ _ _
        (Claims-nested _ _ _ _ (Claims-hidden _ _ _ (configure_serializer-Claims cfg alias)))
        λ s. Claims-pass _ _ _ refl

  with_parser-Claims :
      (set : Option (R.Object → Option R.Object → R.Object)) (cfg : Option Plugin) (alias : String)
      (o : R.Object)
      → Claims [] (λ x. []) (with_parser R p keepers set cfg alias o)
  unfolding with_parser
  with_parser-Claims none cfg alias o = Claims-pass _ _ _ refl
  with_parser-Claims (some set) none alias o = Claims-failed _ _ _
  with_parser-Claims (some set) (some cfg) alias o =
      Claims-bind _ _ _ _ _
        (Claims-nested _ _ _ _ (Claims-hidden _ _ _ (configure_parser-Claims cfg alias)))
        λ s. Claims-pass _ _ _ refl

  pub configure_callable-Claims :
      (cfg : Plugin) (alias : String) (o : R.Object)
      → Claims [] (λ x. []) (configure_callable R p keepers cfg alias o)
  unfolding configure_callable
  configure_callable-Claims cfg alias o =
      Claims-bind _ _ _ _ _ (with_serializer-Claims _ _ alias o)
        λ o'. with_parser-Claims _ _ alias o'

  configure_filter-Claims :
      (plugin : String) (cfg : Plugin) (parent : String) (o : R.Object)
      → Claims [] (λ f. f.alias ∷ []) (configure_filter R p keepers plugin cfg parent o)
  unfolding configure_filter
  configure_filter-Claims plugin cfg parent o =
      Claims-bind _ _ _ _ _ (Claims-claim _ _ (plugin ∷ " filter" ∷ [])) λ _.
        Claims-bind _ _ _ _ _
          (Claims-nested _ _ _ _ (Claims-hidden _ _ _ (configure_callable-Claims _ _ _)))
          λ o₁. Claims-lifted _ _ _ _ λ o₂. Claims-pass _ _ _ refl

  filter_aliases-append :
      (fs gs : List (Plugged R))
      → filter_aliases (fs ++ gs) ≡ filter_aliases fs ++ filter_aliases gs
  unfolding filter_aliases
  filter_aliases-append [] gs = refl
  filter_aliases-append (f ∷ fs) gs = rw (filter_aliases-append fs gs) refl

  filter_aliases-not_filters :
      (fs : List (Plugged R)) → filter_aliases fs ≡ filter_aliases (not_filters R p keepers fs)
  unfolding filter_aliases not_filters
  filter_aliases-not_filters [] = refl
  filter_aliases-not_filters (f ∷ fs) = rw (filter_aliases-not_filters fs) refl

  one_filter-Claims :
      (is_not : Bool) (cfg : Plugin) (inner : Unit {0} → Conf (List (Plugged R)))
      (plugin parent : String) (o : R.Object)
      → Claims [] filter_aliases (inner tt)
      → Claims [] filter_aliases (one_filter R p keepers is_not cfg inner plugin parent o)
  unfolding one_filter filter_aliases
  one_filter-Claims false cfg inner plugin parent o h =
      Claims-bind _ _ _ _ _ (configure_filter-Claims plugin cfg parent o)
        λ f. Claims-pass _ _ _ refl
  one_filter-Claims true end inner plugin parent o h = Claims-failed _ _ _
  one_filter-Claims true (field k v rest) inner plugin parent o h =
      Claims-bind _ _ _ _ _ (Claims-nested _ _ _ _ h)
        λ fs. Claims-pass _ _ _ (filter_aliases-not_filters fs)

  -- Filters, and those that follow.
  then_filters :
      (m k : Conf (List (Plugged R)))
      → Claims [] filter_aliases m
      → Claims [] filter_aliases k
      → Claims [] filter_aliases (m >>= λ fs. k >>= λ others. pass (fs ++ others))
  then_filters m k hm hk = Claims-bind _ _ _ _ _ hm λ fs.
      Claims-bind _ _ _ _ _ (Claims-frame _ _ _ hk)
        λ others. Claims-pass _ _ _ (rw (filter_aliases-append fs others) refl)

  pub configure_filters-Claims :
      (cfg : Plugin) (parent : String)
      → Claims [] filter_aliases (configure_filters R p keepers cfg parent)
  unfolding configure_filters filter_aliases
  configure_filters-Claims end parent = Claims-pass _ _ _ refl
  configure_filters-Claims (field plugin (table cfg) rest) parent = Claims-lifted _ _ _ _ λ o.
      then_filters _ _
        (one_filter-Claims _ cfg _ plugin parent o
          (configure_filters-Claims cfg (joined ("not::" ∷ parent ∷ []))))
        (configure_filters-Claims rest parent)
  configure_filters-Claims (field plugin v rest) parent = Claims-lifted _ _ _ _ λ o.
      then_filters _ _ (one_filter-Claims _ end _ plugin parent o (Claims-pass _ _ _ refl))
        (configure_filters-Claims rest parent)
