-- ===== src/Filters/Glob.antt =====
-- plugins/filters/glob/glob.go: the glob filter. The patterns of github.com/gobwas/glob are a
-- parameter, as the type assertion to a string on a field's value is.
use mathlib.Core.Path.{subst}
use mathlib.Core.Bool.{false≢true}
use neptunus.Base.{
  sym, ap, ◌∙◌, ◌≢◌, Result-cases, String, ◌≡◌, ◌↔◌, refl, Bool, true, false, ◌&&◌, Option, none,
  some, List, [], ◌∷◌, Assoc, Result, ok, err, All, string_comparable, if◌then◌else◌, arith,
  Option-cases, inl, inr, ◌⊎◌,
}
use neptunus.Core.Fields.{MapPath, Error}
use neptunus.Core.Event.{Event, get_label, get_field}

some-eq : {A : Type 0} {a b : A} → ◌≡◌ {A = Option A} (some a) (some b) → a ≡ b
some-eq q = cc

none-ne-some : {A : Type 0} {a : A} → none ≢ some a
none-ne-some q = cc

err-ne-ok : {A : Type 0} {x : Error} {a : A} → ◌≢◌ {A = Result Error A} (err x) (ok a)
err-ne-ok q = cc

ok-injective : {A : Type 0} {a b : A} → ◌≡◌ {A = Result Error A} (ok a) (ok b) → a ≡ b
ok-injective q = cc

and_both : {a b : Bool} → (a && b) ≡ true → (a ≡ true) × (b ≡ true)
and_both {a} {b} h = ground arith

both_and : {a b : Bool} → a ≡ true → b ≡ true → (a && b) ≡ true
both_and {a} {b} p q = ground arith

module _ (m : MapPath) (as_string : m.Any → Option String) {Pattern : Type 0}
    (matches : Pattern → String → Bool) where
  open m use {Any}

  pub record Glob : Type 0 where
    pub rk : Option (List Pattern)
    pub fields : Assoc String (List Pattern)
    pub labels : Assoc String (List Pattern)
    pub no_globs : Bool

  abbrev is_empty {ℓ} : {A : Type ℓ} → List A → Bool
  is_empty [] = true
  is_empty (x ∷ xs) = false

  -- `len(f.RK) == 0`, for a nil slice too.
  abbrev no_rk : Option (List Pattern) → Bool
  no_rk none = true
  no_rk (some ps) = is_empty ps

  unfoldable pub init : Glob → Glob
  init f =
      if is_empty f.fields && is_empty f.labels && no_rk f.rk
      then record f { no_globs = true }
      else f

  unfoldable pub match_any : List Pattern → String → Bool
  match_any [] value = false
  match_any (p ∷ ps) value = let rest = match_any ps value in if matches p value then true else rest

  -- The check of the routing key, for a nil list too.
  unfoldable pub match_rk : Option (List Pattern) → String → Bool
  unfolding match_any
  match_rk none key = true
  match_rk (some ps) key = match_any ps key

  -- The loop over the labels.
  unfoldable pub match_labels : Assoc String (List Pattern) → Event Any → Bool
  match_labels [] e = true
  match_labels ((key, ps) ∷ rest) e =
      let go_on = match_labels rest e in
      elim (get_label key e) [
        | none ↦ false
        | some label ↦ if match_any ps label then go_on else false
      ]

  -- The loop over the fields.
  unfoldable pub match_fields : Assoc String (List Pattern) → Event Any → Bool
  match_fields [] e = true
  match_fields ((key, ps) ∷ rest) e =
      let go_on = match_fields rest e in
      elim (get_field m key e) [
        | err x ↦ false
        | ok raw ↦ elim (as_string raw) [
          | none ↦ false
          | some value ↦ if match_any ps value then go_on else false
        ]
      ]

  unfoldable pub match : Glob → Event Any → Bool
  match f e =
      if f.no_globs
      then true
      else if match_rk f.rk e.routing_key
      then (if match_labels f.labels e then match_fields f.fields e else false)
      else false

  -- Some pattern of the list matches the value.
  abbrev pub SomeMatch : List Pattern → String → Type 0
  SomeMatch [] value = ⊥
  SomeMatch (p ∷ ps) value = (matches p value ≡ true) ⊎ SomeMatch ps value

  abbrev pub RkMatches : Option (List Pattern) → String → Type 0
  RkMatches none key = Unit {0}
  RkMatches (some ps) key = SomeMatch ps key

  match_any_iff :
      (ps : List Pattern) (value : String) → (match_any ps value ≡ true) ↔ SomeMatch ps value
  unfolding match_any
  match_any_iff [] value = ground arith
  match_any_iff (p ∷ ps) value = ground (arith, match_any_iff ps value)

  -- The event has the label, or the field as a string, and some pattern of the list matches it.
  abbrev pub LabelMatches : Event Any → String × List Pattern → Type 0
  LabelMatches e (key, ps) = (v : String) × (get_label key e ≡ some v) × SomeMatch ps v

  abbrev pub FieldMatches : Event Any → String × List Pattern → Type 0
  FieldMatches e (key, ps) =
      (raw : Any) × (v : String) × (get_field m key e ≡ ok raw)
      × (as_string raw ≡ some v)
      × SomeMatch ps v

  match_rk_iff :
      (rk : Option (List Pattern)) (key : String) → (match_rk rk key ≡ true) ↔ RkMatches rk key
  unfolding match_rk
  match_rk_iff none key = (λ _. tt, λ _. refl)
  match_rk_iff (some ps) key = match_any_iff ps key

  label_missing :
      (key : String) (ps : List Pattern) (rest : Assoc String (List Pattern)) (e : Event Any)
      → get_label key e ≡ none
      → match_labels ((key, ps) ∷ rest) e ≡ false
  unfolding match_labels
  label_missing key ps rest e h = ground arith

  label_found :
      (key : String) (ps : List Pattern) (rest : Assoc String (List Pattern)) (e : Event Any)
      (v : String)
      → get_label key e ≡ some v
      → match_labels ((key, ps) ∷ rest) e ≡ (match_any ps v && match_labels rest e)
  unfolding match_labels
  label_found key ps rest e v h = ground arith

  match_labels_iff :
      (ls : Assoc String (List Pattern)) (e : Event Any)
      → (match_labels ls e ≡ true) ↔ All (LabelMatches e) ls
  match_labels_iff [] e = (λ _. tt, λ _. unfold match_labels in refl)
  match_labels_iff ((key, ps) ∷ rest) e =
      let ih = match_labels_iff rest e in
      elim (Option-cases (get_label key e)) [
        | inl no_label ↦
            let no_match = label_missing key ps rest e no_label in
            (
              λ h. absurd (false≢true (sym no_match ∙ h)),
              λ all. absurd (none-ne-some (sym no_label ∙ all.0.1)),
            )
        | inr label ↦
            let found = label_found key ps rest e label.0 label.1 in
            let any = match_any_iff ps label.0 in
            (
              λ h.
                  let both = and_both (sym found ∙ h) in
                  ((label.0, label.1, any.0 both.0), ih.0 both.1),
              λ all.
                  let same : all.0.0 ≡ label.0 = some-eq (sym all.0.1 ∙ label.1) in
                  found ∙ both_and (any.1 (subst (SomeMatch ps) same all.0.2)) (ih.1 all.1),
            )
      ]

  field_missing :
      (key : String) (ps : List Pattern) (rest : Assoc String (List Pattern)) (e : Event Any)
      → (x : Error) → get_field m key e ≡ err x
      → match_fields ((key, ps) ∷ rest) e ≡ false
  unfolding match_fields
  field_missing key ps rest e x h = ground arith

  field_no_string :
      (key : String) (ps : List Pattern) (rest : Assoc String (List Pattern)) (e : Event Any)
      (raw : Any)
      → get_field m key e ≡ ok raw
      → as_string raw ≡ none
      → match_fields ((key, ps) ∷ rest) e ≡ false
  unfolding match_fields
  field_no_string key ps rest e raw h n = ground arith

  field_found :
      (key : String) (ps : List Pattern) (rest : Assoc String (List Pattern)) (e : Event Any)
      (raw : Any) (v : String)
      → get_field m key e ≡ ok raw
      → as_string raw ≡ some v
      → match_fields ((key, ps) ∷ rest) e ≡ (match_any ps v && match_fields rest e)
  unfolding match_fields
  field_found key ps rest e raw v h s = ground arith

  match_fields_iff :
      (fs : Assoc String (List Pattern)) (e : Event Any)
      → (match_fields fs e ≡ true) ↔ All (FieldMatches e) fs
  match_fields_iff [] e = (λ _. tt, λ _. unfold match_fields in refl)
  match_fields_iff ((key, ps) ∷ rest) e =
      let ih = match_fields_iff rest e in
      elim (Result-cases (get_field m key e)) [
        | inr no_field ↦
            let no_match = field_missing key ps rest e no_field.0 no_field.1 in
            (
              λ h. absurd (false≢true (sym no_match ∙ h)),
              λ all. absurd (err-ne-ok (sym no_field.1 ∙ all.0.2)),
            )
        | inl raw ↦ elim (Option-cases (as_string raw.0)) [
          | inl no_string ↦
              let no_match = field_no_string key ps rest e raw.0 raw.1 no_string in
              (
                λ h. absurd (false≢true (sym no_match ∙ h)),
                λ all.
                    let same : all.0.0 ≡ raw.0 = ok-injective (sym all.0.2 ∙ raw.1) in
                    absurd (none-ne-some (sym no_string ∙ ap as_string (sym same) ∙ all.0.3)),
              )
          | inr value ↦
              let found = field_found key ps rest e raw.0 value.0 raw.1 value.1 in
              let any = match_any_iff ps value.0 in
              (
                λ h.
                    let both = and_both (sym found ∙ h) in
                    ((raw.0, value.0, raw.1, value.1, any.0 both.0), ih.0 both.1),
                λ all.
                    let same : all.0.0 ≡ raw.0 = ok-injective (sym all.0.2 ∙ raw.1) in
                    let text : all.0.1 ≡ value.0 =
                      some-eq (sym all.0.3 ∙ ap as_string same ∙ value.1) in
                    found ∙ both_and (any.1 (subst (SomeMatch ps) text all.0.4)) (ih.1 all.1),
              )
        ]
      ]

  -- A filter with globs accepts an event exactly if the routing key matches one of its patterns, when
  -- there is a list of them, every configured label is present and matches, and every configured
  -- field is present, is a string and matches; the order of the maps plays no part.
  pub match_lem :
      (f : Glob) (e : Event Any)
      → f.no_globs ≡ false
      → (match f e ≡ true) ↔ (
          RkMatches f.rk e.routing_key
          × All (LabelMatches e) f.labels
          × All (FieldMatches e) f.fields)
  unfolding match
  match_lem f e g =
      let same : match f e
          ≡ (match_rk f.rk e.routing_key && (match_labels f.labels e && match_fields f.fields e)) =
        ground arith in
      let rk = match_rk_iff f.rk e.routing_key in
      let labels = match_labels_iff f.labels e in
      let fields = match_fields_iff f.fields e in
      (
        λ h.
            let first = and_both (sym same ∙ h) in
            let second = and_both first.1 in (rk.0 first.0, labels.0 second.0, fields.0 second.1),
        λ all. same ∙ both_and (rk.1 all.0) (both_and (labels.1 all.1) (fields.1 all.2)),
      )
