-- ===== src/Pipeline/Postgres/Encoded.antt =====
-- pipeline/storage/postgresql.go: a configuration that was stored is read back.
use neptunus.Base.{String, ◌≡◌, refl, sym, none, List, [], ◌∷◌, Result, ok, err}
use neptunus.Core.Fields.{Error}
use neptunus.Config
use neptunus.Config.{Plugin, PluginSet, end, field}
use neptunus.Pipeline.Postgres.Statements.{
  Json, Stored, ◌>>=◌, worded, table_text, sets_text, config_to_stored, stored_to_config,
}

-- What the storage relies on: what was encoded is decoded, to `table_read` and `sets_read` of it (the
-- decoder of the repository makes an int64 of every number without a fraction that is small enough),
-- and the texts that stand for an empty table and for an empty list are decoded to these.
pub record Documented (J : Json) : Type 0 where
  pub table_read : Plugin → Plugin
  pub sets_read : List PluginSet → List PluginSet
  pub table :
      (p : Plugin) (t : J.Text) → J.marshal_table p ≡ ok t → J.unmarshal_table t ≡ ok (table_read p)
  pub sets :
      (s : List PluginSet) (t : J.Text)
      → J.marshal_sets s ≡ ok t
      → J.unmarshal_sets t ≡ ok (sets_read s)
  pub vars : J.unmarshal_table J.empty_vars ≡ ok (table_read end)
  pub none_set : J.unmarshal_sets J.empty_list ≡ ok (sets_read [])

-- A configuration as it is read back: nothing that was computed of it is stored.
abbrev pub kept : {J : Json} → Documented J → Config.Pipeline → Config.Pipeline
kept law c = record c {
  runtime = none;
  vars = law.table_read c.vars;
  keykeepers = law.sets_read c.keykeepers;
  lookups = law.sets_read c.lookups;
  inputs = law.sets_read c.inputs;
  processors = law.sets_read c.processors;
  outputs = law.sets_read c.outputs;
}

-- A conversion ends in a value.
record Gives {A : Type 0} (r : Result Error A) (a : A) : Type 0 where
  runs : r ≡ ok a

-- A step of a conversion that succeeded has succeeded itself.
Gives-bind :
    {A B : Type 0} (r : Result Error A) (f : A → Result Error B) (b : B)
    → Gives (r >>= f) b
    → (a : A) × (r ≡ ok a) × Gives (f a) b
unfolding ◌>>=◌
Gives-bind (ok a) f b h = (a, refl, record { runs = h.runs })
Gives-bind (err e) f b h = let q = h.runs in absurd cc

Gives-from :
    {A B : Type 0} (r : Result Error A) (f : A → Result Error B) (a : A) (b : B)
    → r ≡ ok a
    → Gives (f a) b
    → Gives (r >>= f) b
unfolding ◌>>=◌
Gives-from r f a b h k = record { runs = rw h (k.runs) }

Gives-end : {A : Type 0} (a b : A) → Gives (ok a) b → a ≡ b
Gives-end a b h = let q = h.runs in cc

module _ (J : Json) (law : Documented J) where
  worded-ok :
      {A : Type 0} (words : String) (r : Result Error A) (a : A)
      → worded J words r ≡ ok a
      → r ≡ ok a
  worded-ok words (ok b) a h = h
  worded-ok words (err e) a h = absurd cc

  worded-read :
      {A : Type 0} (words : String) (r : Result Error A) (a : A)
      → r ≡ ok a
      → worded J words r ≡ ok a
  worded-read words r a h = rw h refl

  -- A column that was encoded, and then put into the row.
  column :
      {A : Type 0} (read : J.Text → Result Error A) (t u : J.Text) (a : A)
      → read t ≡ ok a
      → t ≡ u
      → read u ≡ ok a
  column read t u a h q = rw (sym q) h

  table-read :
      (p : Plugin) (words : String) (t : J.Text)
      → worded J words (table_text J p) ≡ ok t
      → J.unmarshal_table t ≡ ok (law.table_read p)
  table-read end words t h = let q : J.empty_vars ≡ t = cc in rw (q) at (law.vars)
  table-read (field k v p) words t h = law.table (field k v p) t (worded-ok words _ t h)

  sets-read :
      (s : List PluginSet) (words : String) (t : J.Text)
      → worded J words (sets_text J s) ≡ ok t
      → J.unmarshal_sets t ≡ ok (law.sets_read s)
  sets-read [] words t h = let q : J.empty_list ≡ t = cc in rw (q) at (law.none_set)
  sets-read (x ∷ s) words t h = law.sets (x ∷ s) t (worded-ok words _ t h)

  -- Every column of a row is decoded to the part of the configuration that it holds.
  record Holds (c : Config.Pipeline) (p : Stored J) : Type 0 where
    settings : p.settings ≡ c.settings
    vars : J.unmarshal_table p.vars ≡ ok (law.table_read c.vars)
    keykeepers : J.unmarshal_sets p.keykeepers ≡ ok (law.sets_read c.keykeepers)
    lookups : J.unmarshal_sets p.lookups ≡ ok (law.sets_read c.lookups)
    inputs : J.unmarshal_sets p.inputs ≡ ok (law.sets_read c.inputs)
    processors : J.unmarshal_sets p.processors ≡ ok (law.sets_read c.processors)
    outputs : J.unmarshal_sets p.outputs ≡ ok (law.sets_read c.outputs)

  config_to_stored-Holds :
      (c : Config.Pipeline) (p : Stored J) → Gives (config_to_stored J c) p → Holds c p
  unfolding config_to_stored
  config_to_stored-Holds c p h =
      let (v, hv, h1) = Gives-bind _ _ _ h in
      let (k, hk, h2) = Gives-bind _ _ _ h1 in
      let (l, hl, h3) = Gives-bind _ _ _ h2 in
      let (i, hi, h4) = Gives-bind _ _ _ h3 in
      let (r, hr, h5) = Gives-bind _ _ _ h4 in
      let (o, ho, h6) = Gives-bind _ _ _ h5 in
      let q = Gives-end _ _ h6 in
      record {
        settings = sym (λ j. (q j).settings);
        vars =
            column J.unmarshal_table v p.vars (law.table_read c.vars) (table-read c.vars _ v hv)
              (λ j. (q j).vars);
        keykeepers =
            column J.unmarshal_sets k p.keykeepers (law.sets_read c.keykeepers)
              (sets-read c.keykeepers _ k hk) (λ j. (q j).keykeepers);
        lookups =
            column J.unmarshal_sets l p.lookups (law.sets_read c.lookups)
              (sets-read c.lookups _ l hl) (λ j. (q j).lookups);
        inputs =
            column J.unmarshal_sets i p.inputs (law.sets_read c.inputs) (sets-read c.inputs _ i hi)
              (λ j. (q j).inputs);
        processors =
            column J.unmarshal_sets r p.processors (law.sets_read c.processors)
              (sets-read c.processors _ r hr) (λ j. (q j).processors);
        outputs =
            column J.unmarshal_sets o p.outputs (law.sets_read c.outputs)
              (sets-read c.outputs _ o ho) (λ j. (q j).outputs);
      }

  Holds-read :
      (c : Config.Pipeline) (p : Stored J) → Holds c p → Gives (stored_to_config J p) (kept law c)
  unfolding stored_to_config
  Holds-read c p h = Gives-from _ _ _ _ (worded-read _ _ _ h.vars) (
      Gives-from _ _ _ _ (worded-read _ _ _ h.keykeepers) (
        Gives-from _ _ _ _ (worded-read _ _ _ h.lookups) (
          Gives-from _ _ _ _ (worded-read _ _ _ h.inputs) (
            Gives-from _ _ _ _ (worded-read _ _ _ h.processors) (
              Gives-from _ _ _ _ (worded-read _ _ _ h.outputs)
                (record { runs = λ j. ok (record (kept law c) { settings = h.settings j }) }))))))

  -- A configuration that was encoded into a row is decoded from it, as far as it is kept.
  pub stored_to_config-config_to_stored :
      (c : Config.Pipeline) (p : Stored J)
      → config_to_stored J c ≡ ok p
      → (stored_to_config J p ≡ ok (kept law c)) × (p.settings ≡ c.settings)
  stored_to_config-config_to_stored c p e =
      let h = config_to_stored-Holds c p (record { runs = e }) in
      ((Holds-read c p h).runs, h.settings)
