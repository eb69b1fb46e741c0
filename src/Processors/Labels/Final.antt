-- ===== src/Processors/Labels/Final.antt =====
-- plugins/processors/defaults/defaults.go and plugins/processors/delete/delete.go: the labels of an event behind
-- the loops.
use text.Mathlib.TextEquality.{eq_iff}
use neptunus.Base.{
  String, ◌≡◌, refl, ◌∙◌, ap, Option, none, some, [], ◌∷◌, Assoc, lookup, lookup-insert, ◌==◌,
  string_comparable, if◌then◌else◌, arith, Option-cases, inl, inr,
}
use neptunus.Core.Event.{Event, get_label, set_label}
use neptunus.Processors.Labels.{default_label, default_labels}

-- The first answer, or else the second.
abbrev pub or_default : Option String → Option String → Option String
or_default none b = b
or_default (some a) b = some a

default_label_lem :
    {D : Type 0} (l v : String) (e : Event D) (k : String)
    → get_label k (default_label l v e)
      ≡ or_default (get_label k e) (if l == k then some v else none)
unfolding default_label get_label set_label
default_label_lem l v e k = elim (Option-cases (lookup l e.labels)) [
  | inl free ↦
      rw (free, default_label, lookup-insert l k v e.labels) ground
        (arith, eq_iff l k, Option-cases (lookup k e.labels))
  | inr (old, used) ↦
      rw (used, default_label) ground (arith, eq_iff l k, Option-cases (lookup k e.labels))
]

-- Behind `Defaults.Run` an event has each label that it had, with its value, and each other label
-- of the configuration with the value that the configuration has for it; no other label.
default_labels_lem :
    {D : Type 0} (labels : Assoc String String) (e : Event D) (k : String)
    → get_label k (default_labels labels e) ≡ or_default (get_label k e) (lookup k labels)
unfolding default_labels get_label set_label lookup
default_labels_lem [] e k = elim (Option-cases (lookup k e.labels)) [
  | inl a ↦ rw (a) refl
  | inr (v, a) ↦ rw (a) refl
]
default_labels_lem ((l, v) ∷ rest) e k =
    default_labels_lem rest (default_label l v e) k
    ∙ ap (λ old. or_default old (lookup k rest)) (default_label_lem l v e k)
    ∙ ground (arith, Option-cases (get_label k e))
