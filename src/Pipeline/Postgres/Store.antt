-- ===== src/Pipeline/Postgres/Store.antt =====
-- pipeline/storage/postgresql.go: what the storage promises, as a store of configurations and locks, and
-- what each method does to that store.
pub mod Changes
pub mod Edits
pub mod Refinement
pub mod Accepted
use neptunus.Base.{
  ◌≡◌, ◌≢◌, refl, ap, ◌∙◌, sym, String, Bool, true, false, ◌&&◌, ◌||◌, Option, none, some, List, [],
  ◌∷◌, Result, ok, err, if◌then◌else◌, ◌==◌, string_comparable,
}
use neptunus.Config
use neptunus.Pipeline.{PipeError, not_found, validation}
use neptunus.Pipeline.Postgres.{
  Json, Failures, Stored, Tables, pipeline_check, pipeline_get, stored_to_config, get, add, update,
  delete, acquire, release,
}
use neptunus.Pipeline.Postgres.Locks.{holds}
use neptunus.Pipeline.Postgres.Rows.{NoneTwice, live, pipeline_get-pipeline_check}

-- What `Get` answers for each id, and who holds a lock: the instance and the pipeline.
pub record Store : Type 0 where
  pub configs : String → Result PipeError Config.Pipeline
  pub held : String → String → Bool

pub data Request : Type 0 where
  adding updating : Config.Pipeline → Request
  deleting : String → Request
  acquiring releasing : String → String → Request

abbrev pub missing : Result PipeError Config.Pipeline
missing = err (not_found "no rows returned, there is no such pipeline")

-- When a request may succeed.
abbrev pub Allowed : Request → Store → Type 0
Allowed (adding c) s = s.configs c.settings.id ≡ missing
Allowed (updating c) s =
    ((own : String) → s.held own c.settings.id ≡ false) × (s.configs c.settings.id ≢ missing)
Allowed (deleting id) s = ((own : String) → s.held own id ≡ false) × (s.configs id ≢ missing)
Allowed (acquiring own id) s = Unit {0}
Allowed (releasing own id) s = Unit {0}

abbrev answering :
    String
    → Result PipeError Config.Pipeline
    → (String → Result PipeError Config.Pipeline)
    → String
    → Result PipeError Config.Pipeline
answering id new configs asked = if id == asked then new else configs asked

-- What a request that succeeds does, where `kept` is what is read back of a configuration.
abbrev pub effect : (Config.Pipeline → Config.Pipeline) → Request → Store → Store
effect kept (adding c) s = record s { configs = answering c.settings.id (ok (kept c)) s.configs }
effect kept (updating c) s = record s { configs = answering c.settings.id (ok (kept c)) s.configs }
effect kept (deleting id) s = record s { configs = answering id missing s.configs }
effect kept (acquiring own id) s = record s {
  held = λ other asked. (own == other && id == asked) || s.held other asked;
}
effect kept (releasing own id) s = record s {
  held = λ other asked. if own == other && id == asked then false else s.held other asked;
}

-- A database that does not fail.
abbrev pub steady : Failures
steady = record { error = λ n. none; committed = false }

module _ (J : Json) where
  abbrev pub execute : Failures → Request → Tables J → Option PipeError × Tables J
  execute fails (adding c) db = add J fails c db
  execute fails (updating c) db = update J fails c db
  execute fails (deleting id) db = delete J fails id db
  execute fails (acquiring own id) db = acquire J own fails id db
  execute fails (releasing own id) db = release J own fails id db

  -- The store that the tables stand for.
  abbrev pub store : Tables J → Store
  store db = record { configs = λ id. get J steady id db; held = λ own id. holds own id db.locks }

  -- What is answered for a row.
  abbrev pub answer : Option (Stored J) → Result PipeError Config.Pipeline
  answer o = elim o [
    | none ↦ missing
    | some p ↦ elim (stored_to_config J p) [ err e ↦ err (validation e) | ok c ↦ ok c ]
  ]

  pub get-pipeline_check :
      (id : String) (db : Tables J)
      → NoneTwice J db.pipelines
      → get J steady id db ≡ answer (live J (pipeline_check J id db.pipelines))
  unfolding get
  get-pipeline_check id db sound =
      rw (pipeline_get-pipeline_check J id db.pipelines sound, get) refl
