-- ===== src/Assembly/Whole.antt =====
-- pipeline/pipeline.go: what the stages of `Build` do: the aliases, and the plugins that are made.
use mathlib.Core.Path.{subst}
use neptunus.Base.{
  String, refl, [], ◌++◌, ◌≡◌, keys, contains, true, Distinct, string_comparable, ok,
}
use neptunus.Config
use neptunus.Config.{Plugin, PluginSet}
use neptunus.Assembly.{Registry, Aliases}
use neptunus.Assembly.Stages.{
  configure_keykeepers, configure_lookups, configure_inputs, configure_processors,
  configure_outputs, Assembled, configure,
}
use neptunus.Assembly.Claims.{
  Claims, Extends, Extends-refl, Claims-pass, Claims-bind, Claims-frame, Returns,
}
use neptunus.Assembly.Loops.{
  set_aliases, line_aliases, one_keykeeper-Claims, one_lookup-Claims, one_input-Claims,
  one_output-Claims, each_line-Claims, each_set-Claims, needed-Claims,
}

-- The aliases of all plugins but the parsers and the serializers.
unfoldable pub part_aliases : {R : Registry} → Assembled R → Aliases
unfolding set_aliases line_aliases
part_aliases parts =
    keys parts.keepers
    ++ keys parts.lookups
    ++ set_aliases parts.ins
    ++ line_aliases parts.procs
    ++ set_aliases parts.outs

configure-Claims : (R : Registry) (p : Config.Pipeline) → Claims [] part_aliases (configure R p)
unfolding configure part_aliases configure_keykeepers configure_lookups configure_inputs
    configure_processors configure_outputs
configure-Claims R p =
    Claims-bind _ _ _ _ _ (each_set-Claims keys _ (one_keykeeper-Claims R p) 0 p.keykeepers [])
      λ ks.
        Claims-bind _ _ _ _ _
          (Claims-frame _ _ _ (each_set-Claims keys _ (one_lookup-Claims R p ks) 0 p.lookups []))
          λ ls.
            Claims-bind _ _ _ _ _
              (Claims-frame _ _ _ (
                needed-Claims R p _ p.inputs _ _
                  (each_set-Claims set_aliases _ (one_input-Claims R p ks ls) 0 p.inputs [])))
              λ ins.
                Claims-bind _ _ _ _ _ (Claims-frame _ _ _ (each_line-Claims R p ks ls 0 _ []))
                  λ procs.
                    Claims-bind _ _ _ _ _
                      (Claims-frame _ _ _ (
                        needed-Claims R p _ p.outputs _ _ (
                          each_set-Claims set_aliases _ (one_output-Claims R p ks ls) 0 p.outputs
                            [])))
                      λ outs. Claims-pass _ _ _ refl

-- When the stages of a pipeline succeed, the aliases of its keykeepers, its lookups, its inputs, the
-- processors of all its lines, its outputs and all their filters are all different, and each of them
-- has been taken.
pub configure-Distinct :
    (R : Registry) (p : Config.Pipeline) (parts : Assembled R) (taken : Aliases)
    → configure R p [] ≡ ok (parts, taken)
    → Distinct (part_aliases parts)
      × ((alias : String)
          → contains (part_aliases parts) alias ≡ true
          → contains taken alias ≡ true)
configure-Distinct R p parts taken e =
    let h =
      subst (Returns (λ r. Extends [] r.1 (part_aliases r.0))) e
        ((configure-Claims R p).runs [] [] (Extends-refl [])) in
    (h.distinct, h.claimed)
