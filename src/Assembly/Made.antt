-- ===== src/Assembly/Made.antt =====
-- pipeline/pipeline.go: the plugins that the loops of `Build` make, and from what.
use neptunus.Base.{
  ℕ, zero, suc, ◌+◌, String, refl, some, List, [], ◌∷◌, ◌++◌, ◌≡◌, append-nil, append_assoc, ok,
}
use neptunus.Config
use neptunus.Config.{Plugin, PluginSet}
use neptunus.Assembly.{
  Registry, Conf, Kind, input, processor, output, PlugSet, Keepers, Lookups, base_of, prepared,
  configure_callable, give_lookup, with_id,
}
use neptunus.Assembly.Stages.{
  each_plugin, each_set, one_input, one_output, one_processor, each_line, put_line, filters_of,
}
use neptunus.Assembly.Shape.{
  Gives, Gives-pass, Gives-weaken, Gives-bind, Gives-then, Ran, Gives-Ran, Gives-lifted,
  Gives-found, Gives-nested,
}

-- The plugins of all sets, in their order.
unfoldable pub listed : List PluginSet → PluginSet
listed [] = []
listed (set ∷ sets) = set ++ listed sets

module _ (R : Registry) (p : Config.Pipeline) (keepers : Keepers R) (lookups : Lookups R) where
  open R use {Object}

  -- What a plugin is given before it is prepared: the lookup, the parser and the serializer, the id
  -- and the line that it wants, under its alias.
  pub data Given (word : String) (line : ℕ) (plugin : String) (cfg : Plugin) (alias : String)
      : Object → Object → Type 0 where
    plain : {o : Object} → Given word line plugin cfg alias o o
    looked :
        {o o' o'' : Object}
        → Given word line plugin cfg alias o o'
        → give_lookup R p keepers word lookups plugin cfg o' ≡ ok o''
        → Given word line plugin cfg alias o o''
    called :
        {o o' o'' : Object}
        → Given word line plugin cfg alias o o'
        → Ran (configure_callable R p keepers cfg alias o') o''
        → Given word line plugin cfg alias o o''
    identified :
        {o o' : Object}
        → Given word line plugin cfg alias o o'
        → Given word line plugin cfg alias o (with_id R cfg o')
    lined :
        {o o' : Object}
        → Given word line plugin cfg alias o o'
        → Given word line plugin cfg alias o (put_line R p line o')

  -- The set was made of the plugin that is registered under the name, and of the configuration: the
  -- plugin was given what it wants and prepared with it, and the filters are those of its table.
  pub record IsMade (kind : Kind) (word base_word : String) (line : ℕ) (plugin : String)
      (cfg : Plugin) (s : PlugSet R) : Type 0 where
    pub fresh : Object
    pub registered : R.get kind plugin ≡ some fresh
    pub dressed : Object
    pub given : Given word line plugin cfg s.alias fresh dressed
    pub ready :
        prepared R kind word base_word keepers cfg (base_of R p s.alias plugin) dressed
        ≡ ok s.object
    pub filtered : Ran (filters_of R p (Config.table_at "filters" cfg) keepers s.alias) s.filters

  -- The sets were made of the listed plugins, one of each, in their order.
  unfoldable pub AreMade : Kind → String → String → ℕ → PluginSet → List (PlugSet R) → Type 0
  AreMade kind word base_word line [] [] = Unit {0}
  AreMade kind word base_word line ((plugin, cfg) ∷ rest) (s ∷ sets) =
      IsMade kind word base_word line plugin cfg s × AreMade kind word base_word line rest sets
  AreMade kind word base_word line _ _ = ⊥

  -- As many lines as are left were made, each of them of the listed processors.
  unfoldable pub LinesMade : ℕ → ℕ → List (List (PlugSet R)) → Type 0
  unfolding AreMade listed
  LinesMade line zero [] = Unit {0}
  LinesMade line (suc left) (sets ∷ lines) =
      AreMade processor "processor" "BaseProcessor" line (listed p.processors) sets
      × LinesMade (line + 1) left lines
  LinesMade line _ _ = ⊥

  AreMade-append :
      (kind : Kind) (word base_word : String) (line : ℕ) (ps qs : PluginSet)
      (xs ys : List (PlugSet R))
      → AreMade kind word base_word line ps xs
      → AreMade kind word base_word line qs ys
      → AreMade kind word base_word line (ps ++ qs) (xs ++ ys)
  unfolding AreMade
  AreMade-append kind word base_word line [] qs [] ys h k = k
  AreMade-append kind word base_word line [] qs (x ∷ xs) ys h k = absurd h
  AreMade-append kind word base_word line (q ∷ ps) qs [] ys h k = absurd h
  AreMade-append kind word base_word line ((plugin, cfg) ∷ ps) qs (x ∷ xs) ys h k =
      (h.0, AreMade-append kind word base_word line ps qs xs ys h.1 k)

  -- The sets stand behind those that were there, and were made of the listed plugins.
  abbrev Added :
      Kind → String → String → ℕ → PluginSet → List (PlugSet R) → List (PlugSet R) → Type 0
  Added kind word base_word line ps xs xs' =
      (more : List (PlugSet R)) × (xs' ≡ xs ++ more) × AreMade kind word base_word line ps more

  abbrev AddedOne :
      Kind → String → String → ℕ → String → Plugin → List (PlugSet R) → List (PlugSet R) → Type 0
  AddedOne kind word base_word line plugin cfg xs xs' =
      (s : PlugSet R) × (xs' ≡ xs ++ s ∷ []) × IsMade kind word base_word line plugin cfg s

  module _ (kind : Kind) (word base_word : String) (line : ℕ)
      (one : ℕ → String → Plugin → List (PlugSet R) → Conf (List (PlugSet R)))
      (one-Gives : (i : ℕ) (plugin : String) (cfg : Plugin) (xs : List (PlugSet R))
        → Gives (AddedOne kind word base_word line plugin cfg xs) (one i plugin cfg xs)) where
    each_plugin-Gives :
        (index : ℕ) (set : PluginSet) (xs : List (PlugSet R))
        → Gives (Added kind word base_word line set xs) (each_plugin one index set xs)
    unfolding each_plugin AreMade
    each_plugin-Gives index [] xs = Gives-pass _ _ ([], simp append-nil, tt)
    each_plugin-Gives index ((plugin, cfg) ∷ rest) xs =
        Gives-bind _ _ _ _ (one-Gives index plugin cfg xs) λ xs' (s, e, h).
          Gives-weaken _ _ _ (each_plugin-Gives index rest xs')
            λ xs'' (more, e', h'). (s ∷ more, rw (e', e) (simp append_assoc), (h, h'))

    pub each_set-Gives :
        (index : ℕ) (sets : List PluginSet) (xs : List (PlugSet R))
        → Gives (Added kind word base_word line (listed sets) xs) (each_set one index sets xs)
    unfolding each_set listed AreMade
    each_set-Gives index [] xs = Gives-pass _ _ ([], simp append-nil, tt)
    each_set-Gives index (set ∷ sets) xs =
        Gives-bind _ _ _ _ (each_plugin-Gives index set xs) λ xs' (more, e, h).
          Gives-weaken _ _ _ (each_set-Gives (index + 1) sets xs') λ xs'' (others, e', h').
            (more ++ others, rw (e', e) (simp append_assoc), AreMade-append _ _ _ _ _ _ _ _ h h')

  pub one_input-Gives :
      (index : ℕ) (plugin : String) (cfg : Plugin) (ins : List (PlugSet R))
      → Gives
          (AddedOne input "input" "BaseInput" 0 plugin cfg ins)
          (one_input R p keepers lookups index plugin cfg ins)
  unfolding one_input
  one_input-Gives index plugin cfg ins = Gives-bind _ _ _ _ (Gives-found _ _) λ o r.
      Gives-then _ _ _ λ _. Gives-bind _ _ _ _ (Gives-lifted _) λ o₁ l.
        Gives-bind _ _ _ _ (Gives-nested _ _ _ (Gives-Ran _)) λ o₂ c.
          Gives-bind _ _ _ _ (Gives-lifted _) λ o₃ h.
            Gives-bind _ _ _ _ (Gives-nested _ _ _ (Gives-Ran _)) λ fs f. Gives-pass _ _ (
              _,
              refl,
              record {
                fresh = o;
                registered = r;
                dressed = with_id R cfg o₂;
                given = identified (called (looked plain l) c);
                ready = h;
                filtered = f;
              },
            )

  pub one_output-Gives :
      (index : ℕ) (plugin : String) (cfg : Plugin) (outs : List (PlugSet R))
      → Gives
          (AddedOne output "output" "BaseOutput" 0 plugin cfg outs)
          (one_output R p keepers lookups index plugin cfg outs)
  unfolding one_output
  one_output-Gives index plugin cfg outs = Gives-bind _ _ _ _ (Gives-found _ _) λ o r.
      Gives-then _ _ _ λ _. Gives-bind _ _ _ _ (Gives-nested _ _ _ (Gives-Ran _)) λ o₁ c.
        Gives-bind _ _ _ _ (Gives-lifted _) λ o₂ l. Gives-bind _ _ _ _ (Gives-lifted _) λ o₃ h.
          Gives-bind _ _ _ _ (Gives-nested _ _ _ (Gives-Ran _)) λ fs f. Gives-pass _ _ (
            _,
            refl,
            record {
              fresh = o;
              registered = r;
              dressed = with_id R cfg o₂;
              given = identified (looked (called plain c) l);
              ready = h;
              filtered = f;
            },
          )

  one_processor-Gives :
      (line index : ℕ) (plugin : String) (cfg : Plugin) (sets : List (PlugSet R))
      → Gives
          (AddedOne processor "processor" "BaseProcessor" line plugin cfg sets)
          (one_processor R p keepers lookups line index plugin cfg sets)
  unfolding one_processor
  one_processor-Gives line index plugin cfg sets = Gives-bind _ _ _ _ (Gives-found _ _) λ o r.
      Gives-then _ _ _ λ _. Gives-bind _ _ _ _ (Gives-nested _ _ _ (Gives-Ran _)) λ o₁ c.
        Gives-bind _ _ _ _ (Gives-lifted _) λ o₂ l. Gives-bind _ _ _ _ (Gives-lifted _) λ o₃ h.
          Gives-then _ _ _ λ _. Gives-bind _ _ _ _ (Gives-nested _ _ _ (Gives-Ran _)) λ fs f.
            Gives-pass _ _ (
              _,
              refl,
              record {
                fresh = o;
                registered = r;
                dressed = put_line R p line (with_id R cfg o₂);
                given = lined (identified (looked (called plain c) l));
                ready = h;
                filtered = f;
              },
            )

  pub each_line-Gives :
      (line left : ℕ) (procs : List (List (PlugSet R)))
      → Gives
          (λ procs'.
            (more : List (List (PlugSet R))) × (procs' ≡ procs ++ more) × LinesMade line left more)
          (each_line R p keepers lookups line left procs)
  unfolding each_line LinesMade
  each_line-Gives line zero procs = Gives-pass _ _ ([], simp append-nil, tt)
  each_line-Gives line (suc left) procs =
      Gives-bind _ _ _ _ (each_set-Gives _ _ _ line _ (one_processor-Gives line) 0 p.processors [])
        λ sets (more, e, h).
          Gives-weaken _ _ _ (each_line-Gives (line + 1) left (procs ++ sets ∷ []))
            λ procs' (lines, e', h'). (sets ∷ lines, rw e' (simp append_assoc), (rw e h, h'))
