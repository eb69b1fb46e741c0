-- ===== src/Assembly/Loops.antt =====
-- pipeline/pipeline.go: what the loops of the stages do to the aliases.
use neptunus.Base.{
  ℕ, zero, suc, ◌+◌, String, refl, List, [], ◌∷◌, ◌++◌, ◌≡◌, Option, none, some, insert, keys,
  Assoc, contains, contains-append, append-nil, append_assoc, Distinct, ◌==◌, string_comparable,
  arith, ==_iff, Bool-cases, inl, inr,
}
use neptunus.Config
use neptunus.Config.{Plugin, PluginSet}
use neptunus.Assembly.{Registry, Aliases, Conf, PlugSet, Keepers, Lookups}
use neptunus.Assembly.Stages.{
  each_plugin, each_set, one_keykeeper, one_lookup, wrapped_callable, filters_of, one_input,
  one_output, one_processor, each_line, needed,
}
use neptunus.Assembly.Claims.{
  Claims, Claims-pass, Claims-pass-Distinct, Claims-failed, Claims-nested, Claims-lifted,
  Claims-bind, Claims-claim, Claims-hidden, Claims-frame,
}
use neptunus.Assembly.Unique.{filter_aliases, configure_callable-Claims, configure_filters-Claims}

-- The aliases of a stage's plugins and of their filters.
unfoldable pub set_aliases : {R : Registry} → List (PlugSet R) → Aliases
unfolding filter_aliases
set_aliases [] = []
set_aliases (s ∷ sets) = (s.alias ∷ filter_aliases s.filters) ++ set_aliases sets

unfoldable pub line_aliases : {R : Registry} → List (List (PlugSet R)) → Aliases
unfolding set_aliases
line_aliases [] = []
line_aliases (sets ∷ lines) = set_aliases sets ++ line_aliases lines

module _ {A : Type 0} (names : A → Aliases) (one : ℕ → String → Plugin → A → Conf A)
    (one-Claims : (i : ℕ) (plugin : String) (cfg : Plugin) (a : A)
      → Claims (names a) names (one i plugin cfg a)) where
  each_plugin-Claims :
      (index : ℕ) (set : PluginSet) (a : A) → Claims (names a) names (each_plugin one index set a)
  unfolding each_plugin
  each_plugin-Claims index [] a = Claims-pass _ _ _ refl
  each_plugin-Claims index ((plugin, cfg) ∷ rest) a =
      Claims-bind _ _ _ _ _ (one-Claims index plugin cfg a) λ a'. each_plugin-Claims index rest a'

  pub each_set-Claims :
      (index : ℕ) (sets : List PluginSet) (a : A)
      → Claims (names a) names (each_set one index sets a)
  unfolding each_set
  each_set-Claims index [] a = Claims-pass _ _ _ refl
  each_set-Claims index (set ∷ sets) a =
      Claims-bind _ _ _ _ _ (each_plugin-Claims index set a)
        λ a'. each_set-Claims (index + 1) sets a'

keys-insert :
    {V : Type 0} (k : String) (v : V) (m : Assoc String V)
    → Distinct (keys m ++ k ∷ [])
    → keys m ++ k ∷ [] ≡ keys (insert k v m)
unfolding insert contains
keys-insert k v [] d = refl
keys-insert k v ((j, w) ∷ m) d = elim (Bool-cases (j == k)) [
  | inl same ↦ ground (arith, d.0, contains-append (keys m) (k ∷ []) j, ==_iff k j, ==_iff j k)
  | inr other ↦ rw other (rw (keys-insert k v m d.1) refl)
]

module _ (R : Registry) (p : Config.Pipeline) where
  pub one_keykeeper-Claims :
      (index : ℕ) (plugin : String) (cfg : Plugin) (keepers : Keepers R)
      → Claims (keys keepers) keys (one_keykeeper R p index plugin cfg keepers)
  unfolding one_keykeeper
  one_keykeeper-Claims index plugin cfg keepers = Claims-lifted _ _ _ _ λ o.
      Claims-bind _ _ _ _ _ (Claims-claim _ _ (plugin ∷ " keykeeper" ∷ []))
        λ _. Claims-lifted _ _ _ _ λ o₂. Claims-pass-Distinct _ _ _ (keys-insert _ o₂ keepers)

  wrapped_callable-Claims :
      (w : Option (R.Object × (R.Object → R.Object))) (keepers : Keepers R) (cfg : Plugin)
      (alias : String) (o : R.Object)
      → Claims [] (λ x. []) (wrapped_callable R p w keepers cfg alias o)
  unfolding wrapped_callable
  wrapped_callable-Claims none keepers cfg alias o =
      configure_callable-Claims R p keepers cfg alias o
  wrapped_callable-Claims (some (inner, wrap)) keepers cfg alias o =
      Claims-bind _ _ _ _ _ (configure_callable-Claims R p keepers cfg alias inner)
        λ x. Claims-pass _ _ _ refl

  pub one_lookup-Claims :
      (keepers : Keepers R) (index : ℕ) (plugin : String) (cfg : Plugin) (lookups : Lookups R)
      → Claims (keys lookups) keys (one_lookup R p keepers index plugin cfg lookups)
  unfolding one_lookup
  one_lookup-Claims keepers index plugin cfg lookups = Claims-lifted _ _ _ _ λ o.
      Claims-bind _ _ _ _ _ (Claims-claim _ _ (plugin ∷ " lookup" ∷ [])) λ _.
        Claims-bind _ _ _ _ _
          (Claims-nested _ _ _ _ (Claims-hidden _ _ _ (wrapped_callable-Claims _ keepers cfg _ _)))
          λ o₁. Claims-lifted _ _ _ _ λ o₂. Claims-pass-Distinct _ _ _ (keys-insert _ o₂ lookups)

  filters_of-Claims :
      (filters : Option Plugin) (keepers : Keepers R) (alias : String)
      → Claims [] filter_aliases (filters_of R p filters keepers alias)
  unfolding filters_of filter_aliases
  filters_of-Claims none keepers alias = Claims-pass _ _ _ refl
  filters_of-Claims (some filters) keepers alias =
      configure_filters-Claims R p keepers filters alias

  set_aliases-append :
      (xs : List (PlugSet R)) (x : PlugSet R)
      → (set_aliases xs ++ x.alias ∷ []) ++ filter_aliases x.filters ≡ set_aliases (xs ++ x ∷ [])
  unfolding set_aliases
  set_aliases-append [] x = simp append-nil
  set_aliases-append (y ∷ xs) x = simp (append_assoc, ← set_aliases-append xs x)

  pub one_input-Claims :
      (keepers : Keepers R) (lookups : Lookups R) (index : ℕ) (plugin : String) (cfg : Plugin)
      (ins : List (PlugSet R))
      → Claims (set_aliases ins) set_aliases (one_input R p keepers lookups index plugin cfg ins)
  unfolding one_input
  one_input-Claims keepers lookups index plugin cfg ins = Claims-lifted _ _ _ _ λ o.
      Claims-bind _ _ _ _ _ (Claims-claim _ _ (plugin ∷ " input" ∷ [])) λ _.
        Claims-lifted _ _ _ _ λ o₁.
          Claims-bind _ _ _ _ _
            (Claims-nested _ _ _ _
              (Claims-hidden _ _ _ (configure_callable-Claims R p keepers cfg _ o₁)))
            λ o₂. Claims-lifted _ _ _ _ λ o₃.
              Claims-bind _ _ _ _ _
                (Claims-nested _ _ _ _ (Claims-frame _ _ _ (filters_of-Claims _ keepers _)))
                λ fs.
                  Claims-pass _ _ _
                    (set_aliases-append ins (record { alias = _; object = _; filters = _ }))

  pub one_output-Claims :
      (keepers : Keepers R) (lookups : Lookups R) (index : ℕ) (plugin : String) (cfg : Plugin)
      (outs : List (PlugSet R))
      → Claims (set_aliases outs) set_aliases (one_output R p keepers lookups index plugin cfg outs)
  unfolding one_output
  one_output-Claims keepers lookups index plugin cfg outs = Claims-lifted _ _ _ _ λ o.
      Claims-bind _ _ _ _ _ (Claims-claim _ _ (plugin ∷ " output" ∷ [])) λ _.
        Claims-bind _ _ _ _ _
          (Claims-nested _ _ _ _
            (Claims-hidden _ _ _ (configure_callable-Claims R p keepers cfg _ o)))
          λ o₁. Claims-lifted _ _ _ _ λ o₂. Claims-lifted _ _ _ _ λ o₃.
            Claims-bind _ _ _ _ _
              (Claims-nested _ _ _ _ (Claims-frame _ _ _ (filters_of-Claims _ keepers _)))
              λ fs.
                Claims-pass _ _ _
                  (set_aliases-append outs (record { alias = _; object = _; filters = _ }))

  pub one_processor-Claims :
      (keepers : Keepers R) (lookups : Lookups R) (line index : ℕ) (plugin : String) (cfg : Plugin)
      (sets : List (PlugSet R))
      → Claims
          (set_aliases sets)
          set_aliases
          (one_processor R p keepers lookups line index plugin cfg sets)
  unfolding one_processor
  one_processor-Claims keepers lookups line index plugin cfg sets = Claims-lifted _ _ _ _ λ o.
      Claims-bind _ _ _ _ _ (Claims-claim _ _ (plugin ∷ " processor" ∷ [])) λ _.
        Claims-bind _ _ _ _ _
          (Claims-nested _ _ _ _
            (Claims-hidden _ _ _ (configure_callable-Claims R p keepers cfg _ o)))
          λ o₁. Claims-lifted _ _ _ _ λ o₂. Claims-lifted _ _ _ _ λ o₃. Claims-lifted _ _ _ _ λ _.
            Claims-bind _ _ _ _ _
              (Claims-nested _ _ _ _ (Claims-frame _ _ _ (filters_of-Claims _ keepers _)))
              λ fs.
                Claims-pass _ _ _
                  (set_aliases-append sets (record { alias = _; object = _; filters = _ }))

  line_aliases-append :
      (lines : List (List (PlugSet R))) (sets : List (PlugSet R))
      → line_aliases lines ++ set_aliases sets ≡ line_aliases (lines ++ sets ∷ [])
  unfolding line_aliases
  line_aliases-append [] sets = simp append-nil
  line_aliases-append (line ∷ lines) sets = simp (append_assoc, ← line_aliases-append lines sets)

  pub each_line-Claims :
      (keepers : Keepers R) (lookups : Lookups R) (line left : ℕ) (procs : List (List (PlugSet R)))
      → Claims (line_aliases procs) line_aliases (each_line R p keepers lookups line left procs)
  unfolding each_line set_aliases
  each_line-Claims keepers lookups line zero procs = Claims-pass _ _ _ refl
  each_line-Claims keepers lookups line (suc left) procs =
      Claims-bind _ (λ sets. line_aliases procs ++ set_aliases sets) _ _ _
        (Claims-frame _ _ _ (
          each_set-Claims set_aliases _ (one_processor-Claims keepers lookups line) 0 p.processors
            []))
        λ sets.
          rw (line_aliases-append procs sets)
            (each_line-Claims keepers lookups (line + 1) left (procs ++ sets ∷ []))

  pub needed-Claims :
      {A : Type 0} (names : A → Aliases) (sets : List PluginSet) (text : String) (m : Conf A)
      → Claims [] names m
      → Claims [] names (needed sets text m)
  unfolding needed
  needed-Claims names [] text m h = Claims-failed _ _ _
  needed-Claims names (set ∷ sets) text m h = h
