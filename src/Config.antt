-- ===== src/Config.antt =====
-- config/pipeline.go: the configuration of a pipeline, and the accessors of a plugin's reserved keys.
pub mod Defaults
pub mod Keys
use Prim.Native.String.{◌++◌}
use text.Mathlib.Text.{starts_with}
use neptunus.Base.{
  ℕ, String, ◌>>=◌, Result, ok, err, nat_beq, ◌≡◌, Bool, true, false, Option, none, some, List, [],
  ◌∷◌, Assoc, insert, ◌==◌, string_comparable, if◌then◌else◌,
}
use neptunus.Base.Int.{ℤ, pos, negsuc}

-- The values of a decoded configuration (Go's `any`). `other` stands for the types that the
-- accessors do not ask for, known by a number.
mutual
  pub data Value : Type 0 where
    str : String → Value
    bool : Bool → Value
    uint64 : ℕ → Value
    other : ℕ → Value
    table : Plugin → Value

  -- `map[string]any`, in the order of `range`.
  pub data Plugin : Type 0 where
    end : Plugin
    field : String → Value → Plugin → Plugin

abbrev pub PluginSet : Type 0
PluginSet = Assoc String Plugin

pub record PipeSettings : Type 0 where
  pub id : String
  pub lines : ℤ
  pub run : Bool
  pub buffer : ℤ
  pub consistency : String
  pub log_level : String

pub record PipeRuntime : Type 0 where
  pub state : String
  pub last_error : String

pub record Pipeline : Type 0 where
  pub settings : PipeSettings
  pub vars : Plugin
  pub inputs : List PluginSet
  pub processors : List PluginSet
  pub outputs : List PluginSet
  pub keykeepers : List PluginSet
  pub lookups : List PluginSet
  pub runtime : Option PipeRuntime

-- `p[key]`, with Go's second result.
unfoldable pub index : String → Plugin → Option Value
index k end = none
index k (field j v p) = if j == k then some v else index k p

-- `p[key] = v`.
unfoldable pub assign : String → Value → Plugin → Plugin
assign k v end = field k v end
assign k v (field j w p) = if j == k then field k v p else field j w (assign k v p)

-- The type assertions `v.(string)`, `v.(bool)`, `v.(uint64)` and `v.(map[string]any)`.
abbrev pub as_string : Value → Option String
as_string (str s) = some s
as_string _ = none

abbrev pub as_bool : Value → Option Bool
as_bool (bool b) = some b
as_bool _ = none

abbrev pub as_uint64 : Value → Option ℕ
as_uint64 (uint64 n) = some n
as_uint64 _ = none

abbrev pub as_table : Value → Option Plugin
as_table (table p) = some p
as_table _ = none

-- A reserved key that holds a text; "" where it is missing or of another type.
abbrev pub string_at : String → Plugin → String
string_at key p = elim (index key p) [
  | none ↦ ""
  | some v ↦ elim (as_string v) [ none ↦ "" | some s ↦ s ]
]

-- A reserved key that holds a table; nil where it is missing or of another type.
abbrev pub table_at : String → Plugin → Option Plugin
table_at key p = elim (index key p) [ none ↦ none | some v ↦ as_table v ]

unfoldable pub plugin_id : Plugin → ℕ → ℕ × Plugin
plugin_id p random = elim (index "::plugin_id" p) [
  | none ↦ (random, assign "::plugin_id" (uint64 random) p)
  | some v ↦ elim (as_uint64 v) [
    | none ↦ (random, assign "::plugin_id" (uint64 random) p)
    | some id ↦ (id, p)
  ]
]

unfoldable pub alias : Plugin → String
unfolding index
alias p = string_at "alias" p

unfoldable pub reverse : Plugin → Bool
unfolding index
reverse p = elim (index "reverse" p) [
  | none ↦ false
  | some v ↦ elim (as_bool v) [ none ↦ false | some b ↦ b ]
]

unfoldable pub plugin_type : Plugin → String
unfolding index
plugin_type p = string_at "type" p

unfoldable pub log_level : Plugin → String
unfolding index
log_level p = string_at "log_level" p

unfoldable pub lookup_name : Plugin → String
unfolding index
lookup_name p = string_at "lookup" p

unfoldable pub parser : Plugin → Option Plugin
unfolding index
parser p = table_at "parser" p

unfoldable pub serializer : Plugin → Option Plugin
unfolding index
serializer p = table_at "serializer" p

-- `ToSet`, and the loop of `Filters`: what is not a table becomes an empty one.
unfoldable pub to_set : Plugin → PluginSet
to_set end = []
to_set (field key v p) = insert key (elim (as_table v) [ none ↦ end | some cfg ↦ cfg ]) (to_set p)

unfoldable pub filters : Plugin → Option PluginSet
unfolding index to_set
filters p = elim (table_at "filters" p) [ none ↦ none | some set ↦ some (to_set set) ]

-- The keys that begin with a prefix: the loop of `Compressor` and of `Decompressor`.
unfoldable pub keep_prefixed : String → Plugin → Plugin
keep_prefixed prefix end = end
keep_prefixed prefix (field k v p) =
    let rest = keep_prefixed prefix p in if starts_with k prefix then field k v rest else rest

-- The plugin's keys with the prefix that the text under a reserved key names.
abbrev prefixed_at : String → Plugin → Option (Plugin × String)
prefixed_at key p = elim (index key p) [
  | none ↦ none
  | some v ↦ elim (as_string v) [
    | none ↦ none
    | some name ↦ some (keep_prefixed (name ++ "_") p, name)
  ]
]

unfoldable pub compressor : Plugin → Option (Plugin × String)
compressor p = prefixed_at "compressor" p

unfoldable pub decompressor : Plugin → Option (Plugin × String)
decompressor p = prefixed_at "decompressor" p

-- The test `n <= 0` and `n < 0` of an int.
abbrev pub not_positive : ℤ → Bool
not_positive (pos n) = nat_beq n 0
not_positive (negsuc n) = true

abbrev pub is_negative : ℤ → Bool
is_negative (pos n) = false
is_negative (negsuc n) = true

-- The three tests of `SetPipelineDefaults`, in turn.
unfoldable pub set_pipeline_defaults : PipeSettings → PipeSettings
set_pipeline_defaults settings =
    let a = if not_positive settings.lines then record settings { lines = pos 1 } else settings in
    let b = if is_negative a.buffer then record a { buffer = pos 0 } else a in
    if b.consistency == "" then record b { consistency = "soft" } else b

-- The branch of `UnmarshalPipeline` for a pipeline. The decoders of the formats are libraries.
unfoldable pub unmarshal_pipeline :
    {Bytes E : Type 0} → (Bytes → String → Result E Pipeline) → Bytes → String → Result E Pipeline
unfolding set_pipeline_defaults
unmarshal_pipeline unmarshal_format bytes format = do
  d ← unmarshal_format bytes format
  ok (record d { settings = set_pipeline_defaults d.settings })
