-- ===== src/Pipeline/Postgres/Statements.antt =====
-- pipeline/storage/postgresql.go: the tables, their rows and the SQL statements.
use Prim.Native.String.{◌++◌ as concat}
use neptunus.Base.{
  ℕ, String, Bool, true, false, not, ◌&&◌, Option, none, some, List, [], ◌∷◌, ◌++◌, Result, ok, err,
  if◌then◌else◌, ◌==◌, string_comparable,
}
use neptunus.Core.Fields.{Error}
use neptunus.Config
use neptunus.Config.{Plugin, PluginSet, PipeSettings, end, field}

-- A step whose error ends a conversion.
infixl 5 ◌>>=◌
unfoldable pub ◌>>=◌ {ℓ κ} :
    {A : Type ℓ} {B : Type κ} → Result Error A → (A → Result Error B) → Result Error B
ok a >>= f = f a
err e >>= f = err e

-- `violation` is the database's error for a row that breaks a constraint of the table, and `by_id` puts
-- rows in the order of `ORDER BY id`.
pub record Json : Type 1 where
  pub Text : Type 0
  pub marshal_table : Plugin → Result Error Text
  pub marshal_sets : List PluginSet → Result Error Text
  pub unmarshal_table : Text → Result Error Plugin
  pub unmarshal_sets : Text → Result Error (List PluginSet)
  pub empty_vars : Text
  pub empty_list : Text
  pub violation : Error
  pub by_id : {A : Type 0} → (A → String) → List A → List A

-- The error of each call of the database in a method, by its number, and whether a call that would
-- end a transaction has taken effect although its answer was an error.
pub record Failures : Type 0 where
  pub error : ℕ → Option Error
  pub committed : Bool

pub record Lock : Type 0 where
  pub instance_name : String
  pub pipeline : String

module _ (J : Json) where
  open J use {Text}

  -- `storedPipeline`, with the columns of the settings in one field.
  pub record Stored : Type 0 where
    pub settings : PipeSettings
    pub vars : Text
    pub keykeepers : Text
    pub lookups : Text
    pub inputs : Text
    pub processors : Text
    pub outputs : Text

  pub record Row : Type 0 where
    pub stored : Stored
    pub deleted : Bool

  pub record Tables : Type 0 where
    pub pipelines : List Row
    pub locks : List Lock

  abbrev pub id_of : Row → String
  id_of r = r.stored.settings.id

  -- An error behind words.
  abbrev pub worded : {A : Type 0} → String → Result Error A → Result Error A
  worded words (ok a) = ok a
  worded words (err e) = err (concat words e)

  -- `configToStored`.
  abbrev pub table_text : Plugin → Result Error Text
  table_text end = ok J.empty_vars
  table_text (field k v p) = J.marshal_table (field k v p)

  abbrev pub sets_text : List PluginSet → Result Error Text
  sets_text [] = ok J.empty_list
  sets_text (set ∷ sets) = J.marshal_sets (set ∷ sets)

  unfoldable pub config_to_stored : Config.Pipeline → Result Error Stored
  config_to_stored c = do
    vars ← worded "marshal vars: " (table_text c.vars)
    keykeepers ← worded "marshal keykeepers: " (sets_text c.keykeepers)
    lookups ← worded "marshal lookups: " (sets_text c.lookups)
    inputs ← worded "marshal inputs: " (sets_text c.inputs)
    processors ← worded "marshal processors: " (sets_text c.processors)
    outputs ← worded "marshal outputs: " (sets_text c.outputs)
    ok (record {
      settings = c.settings;
      vars = vars;
      keykeepers = keykeepers;
      lookups = lookups;
      inputs = inputs;
      processors = processors;
      outputs = outputs;
    })

  -- `storedToConfig`.
  unfoldable pub stored_to_config : Stored → Result Error Config.Pipeline
  stored_to_config p = do
    vars ← worded "unmarshal vars: " (J.unmarshal_table p.vars)
    keykeepers ← worded "unmarshal keykeepers: " (J.unmarshal_sets p.keykeepers)
    lookups ← worded "unmarshal lookups: " (J.unmarshal_sets p.lookups)
    inputs ← worded "unmarshal inputs: " (J.unmarshal_sets p.inputs)
    processors ← worded "unmarshal processors: " (J.unmarshal_sets p.processors)
    outputs ← worded "unmarshal outputs: " (J.unmarshal_sets p.outputs)
    ok (record {
      settings = p.settings;
      vars = vars;
      inputs = inputs;
      processors = processors;
      outputs = outputs;
      keykeepers = keykeepers;
      lookups = lookups;
      runtime = none;
    })

  -- The statements. `pipeline_check` selects the row of an id, and `pipeline_get` one that is not
  -- deleted.
  unfoldable pub pipeline_check : String → List Row → Option Row
  pipeline_check id [] = none
  pipeline_check id (r ∷ rows) = if id_of r == id then some r else pipeline_check id rows

  unfoldable pub pipeline_get : String → List Row → Option Stored
  pipeline_get id [] = none
  pipeline_get id (r ∷ rows) =
      if id_of r == id && not r.deleted then some r.stored else pipeline_get id rows

  unfoldable pub pipeline_remove : String → List Row → List Row
  pipeline_remove id [] = []
  pipeline_remove id (r ∷ rows) =
      let others = pipeline_remove id rows in if id_of r == id then others else r ∷ others

  unfoldable pub pipeline_delete : String → List Row → List Row
  pipeline_delete id [] = []
  pipeline_delete id (r ∷ rows) =
      (if id_of r == id then record r { deleted = true } else r) ∷ pipeline_delete id rows

  unfoldable pub pipeline_update : Stored → List Row → List Row
  pipeline_update p [] = []
  pipeline_update p (r ∷ rows) =
      (if id_of r == p.settings.id then record r { stored = p } else r) ∷ pipeline_update p rows

  -- The constraints of the table are checked on insertion.
  unfoldable pub pipeline_add : Stored → List Row → Result Error (List Row)
  unfolding pipeline_check
  pipeline_add p rows =
      if p.settings.id == "" then err J.violation else elim (pipeline_check p.settings.id rows) [
        | some r ↦ err J.violation
        | none ↦ ok (rows ++ record { stored = p; deleted = false } ∷ [])
      ]

  unfoldable pub lock_check : String → List Lock → List Lock
  lock_check id [] = []
  lock_check id (l ∷ locks) =
      let others = lock_check id locks in if l.pipeline == id then l ∷ others else others

  -- A row that is there already is left.
  unfoldable pub lock_acquire : Lock → List Lock → List Lock
  lock_acquire new [] = new ∷ []
  lock_acquire new (l ∷ locks) =
      if l.instance_name == new.instance_name && l.pipeline == new.pipeline
      then l ∷ locks
      else l ∷ lock_acquire new locks

  unfoldable pub lock_release : Lock → List Lock → List Lock
  lock_release old [] = []
  lock_release old (l ∷ locks) =
      let others = lock_release old locks in
      if l.instance_name == old.instance_name && l.pipeline == old.pipeline
      then others
      else l ∷ others
