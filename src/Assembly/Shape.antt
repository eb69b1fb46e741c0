-- ===== src/Assembly/Shape.antt =====
-- pipeline/pipeline.go: rules for what a configure method gives, whatever the aliases.
use neptunus.Base.{
  String, refl, List, [], ◌∷◌, ◌++◌, ◌≡◌, ◌≢◌, Result, Option, none, some, joined, ok, err,
}
use neptunus.Config.{PluginSet}
use neptunus.Core.Fields.{Error}
use neptunus.Assembly.{Aliases, Conf, ◌>>=◌, pass, failed, lifted, found, nested}
use neptunus.Assembly.Stages.{needed}
use neptunus.Assembly.Claims.{Returns}

-- Whatever the aliases, the result has the property, if there is one.
pub record Gives {A : Type 0} (P : A → Type 0) (m : Conf A) : Type 0 where
  pub runs : (s : Aliases) → Returns (λ r. P r.0) (m s)

module _ {A : Type 0} where
  pub Gives-pass : (P : A → Type 0) (x : A) → P x → Gives P (pass x)
  unfolding pass
  Gives-pass P x h = record { runs = λ s. h }

  Gives-failed : (P : A → Type 0) (text : List String) → Gives P (failed text)
  unfolding failed
  Gives-failed P text = record { runs = λ s. tt }

  pub Gives-any : (m : Conf A) → Gives (λ x. Unit {0}) m
  Gives-any m = record { runs = λ s. go (m s) }
    where
      go : (r : Result Error (A × Aliases)) → Returns (λ r. Unit {0}) r
      go (ok r) = tt
      go (err x) = tt

  pub Gives-weaken : (P Q : A → Type 0) (m : Conf A) → Gives P m → ((x : A) → P x → Q x) → Gives Q m
  Gives-weaken P Q m h w = record { runs = λ s. go (m s) (h.runs s) }
    where
      go : (r : Result Error (A × Aliases)) → Returns (λ r. P r.0) r → Returns (λ r. Q r.0) r
      go (ok r) h = w r.0 h
      go (err x) h = tt

module _ {A B : Type 0} where
  pub Gives-bind :
      (Q : A → Type 0) (P : B → Type 0) (m : Conf A) (f : A → Conf B)
      → Gives Q m
      → ((x : A) → Q x → Gives P (f x))
      → Gives P (m >>= f)
  unfolding ◌>>=◌
  Gives-bind Q P m f hm hf = record { runs = λ s. go (m s) (hm.runs s) }
    where
      go :
          (r : Result Error (A × Aliases))
          → Returns (λ r. Q r.0) r
          → Returns (λ r. P r.0) (elim r [ err e ↦ err e | ok r ↦ f r.0 r.1 ])
      go (ok r) h = (hf r.0 h).runs r.1
      go (err x) h = tt

  pub Gives-then :
      (P : B → Type 0) (m : Conf A) (f : A → Conf B) → ((x : A) → Gives P (f x)) → Gives P (m >>= f)
  Gives-then P m f h = Gives-bind (λ x. Unit {0}) P m f (Gives-any m) (λ x _. h x)

-- The computation can give the result.
abbrev pub Ran : {A : Type 0} → Conf A → A → Type 0
Ran m x = (s : Aliases) × (s' : Aliases) × (m s ≡ ok (x, s'))

module _ {A : Type 0} where
  pub Gives-Ran : (m : Conf A) → Gives (Ran m) m
  Gives-Ran m = record { runs = λ s. go s (m s) refl }
    where
      go : (s : Aliases) (r : Result Error (A × Aliases)) → m s ≡ r → Returns (λ r. Ran m r.0) r
      go s (ok (x, s')) e = (s, s', e)
      go s (err t) e = tt

  pub Gives-lifted : (r : Result Error A) → Gives (λ x. r ≡ ok x) (lifted r)
  unfolding lifted
  Gives-lifted (ok x) = record { runs = λ s. refl }
  Gives-lifted (err t) = record { runs = λ s. tt }

  pub Gives-found :
      (o : Option A) (text : List String) → Gives (λ x. o ≡ some x) (lifted (found o text))
  unfolding lifted found
  Gives-found (some x) text = record { runs = λ s. refl }
  Gives-found none text = record { runs = λ s. tt }

  pub Gives-nested :
      (words : List String) (P : A → Type 0) (m : Conf A) → Gives P m → Gives P (nested words m)
  unfolding nested
  Gives-nested words P m h = record { runs = λ s. go (m s) (h.runs s) }
    where
      go :
          (r : Result Error (A × Aliases))
          → Returns (λ r. P r.0) r
          → Returns (λ r. P r.0) (elim r [ ok r ↦ ok r | err e ↦ err (joined (words ++ e ∷ [])) ])
      go (ok r) h = h
      go (err t) h = tt

  pub Gives-needed :
      (P : A → Type 0) (sets : List PluginSet) (text : String) (m : Conf A)
      → Gives P m
      → Gives (λ x. P x × (sets ≢ [])) (needed sets text m)
  unfolding needed
  Gives-needed P [] text m h = Gives-failed _ _
  Gives-needed P (set ∷ sets) text m h = Gives-weaken _ _ _ h λ x px. (px, λ e. cc)
