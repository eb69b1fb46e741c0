-- ===== src/Assembly/Monad.antt =====
-- pipeline/pipeline.go: the monad of the configure methods, and those that they share.
use neptunus.Base.{
  ℕ, String, Bool, Option, none, some, List, [], ◌∷◌, ◌++◌, Result, ok, err, ◌==◌,
  string_comparable, if◌then◌else◌, contains, joined,
}
use neptunus.Core.Fields.{Error}
use neptunus.Config
use neptunus.Config.{Value, Plugin, str, bool, uint64, other, table, end, field}

pub data Kind : Type 0 where
  keykeeper lookup_plugin input processor output filter parser serializer compressor decompressor :
      Kind

-- core.BaseInput and its like: what every plugin is told of itself. Only filters have `reverse`.
pub record BasePlugin : Type 0 where
  pub alias : String
  pub plugin : String
  pub pipeline : String
  pub reverse : Bool

-- The registered plugins, and what is called on a plugin. A method changes the plugin, so that it
-- returns the new one. `as_...` is a type assertion: none where the plugin has not the methods.
-- `draw` is the number that `rand.Uint64` gives a plugin's configuration at the first call of its
-- `Id`, which keeps it there. `match_key` is the regular expression of `keyConfigPattern`, and `print`
-- is fmt's of an integer.
pub record Registry : Type 1 where
  pub Object : Type 0
  pub get : Kind → String → Option Object
  pub as_set_serializer : Object → Option (Object → Option Object → Object)
  pub as_set_parser : Object → Option (Object → Option Object → Object)
  pub as_set_lookup : Object → Option (Object → Object)
  pub as_set_id : Object → Option (ℕ → Object)
  pub draw : Plugin → ℕ
  pub as_set_line : Object → Option (ℕ → Object)
  pub as_set_config : Object → Option (Config.Pipeline → Object)
  pub as_lazy : Object → Option (Object × (Object → Object))
  pub is_mixer : Object → Bool
  pub is_not : Object → Bool
  pub wrap_not : Object → Object
  pub set_base : Kind → BasePlugin → Object → Option Object
  pub decode : (Value → Result Error Value) → Plugin → Object → Result Error Object
  pub init : Object → Result Error Object
  pub get_key : Object → String → Result Error Value
  pub match_key : String → Option (String × String)
  pub print : ℕ → String

-- `p.aliases`.
abbrev pub Aliases : Type 0
Aliases = List String

-- A computation that reads and extends the aliases, and may fail.
abbrev pub Conf : Type 0 → Type 0
Conf A = Aliases → Result Error (A × Aliases)

unfoldable pub pass : {A : Type 0} → A → Conf A
pass a s = ok (a, s)

infixl 5 ◌>>=◌ ◌>>◌
unfoldable pub ◌>>=◌ : {A B : Type 0} → Conf A → (A → Conf B) → Conf B
◌>>=◌ m f s = elim (m s) [ err e ↦ err e | ok r ↦ f r.0 r.1 ]

abbrev pub ◌>>◌ : {A B : Type 0} → Conf A → Conf B → Conf B
m >> k = m >>= λ _. k

-- A step that does not touch the aliases.
unfoldable pub lifted : {A : Type 0} → Result Error A → Conf A
lifted (ok a) s = ok (a, s)
lifted (err e) s = err e

unfoldable pub failed : {A : Type 0} → List String → Conf A
failed text s = err (joined text)

-- The error of a step behind words.
unfoldable pub nested : {A : Type 0} → List String → Conf A → Conf A
nested words m s = elim (m s) [ ok r ↦ ok r | err e ↦ err (joined (words ++ e ∷ [])) ]

-- An alias that is taken is refused, and any other is taken.
unfoldable pub claim : String → List String → Conf (Unit {0})
unfolding contains
claim alias source s =
    if contains s alias
    then err (
        joined
          ("duplicate alias detected in pipeline configuration: " ∷ alias ∷ ", from " ∷ source))
    else ok (tt, alias ∷ s)

unfoldable pub found : {A : Type 0} → Option A → List String → Result Error A
found none text = err (joined text)
found (some a) text = ok a

-- The alias that a configuration names, or else the one that is made.
abbrev pub alias_of : Plugin → String → String
alias_of cfg made = if Config.alias cfg == "" then made else Config.alias cfg
