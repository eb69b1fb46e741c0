-- ===== src/Pipeline/Postgres.antt =====
-- pipeline/storage/postgresql.go: the storage of pipelines in two tables. The statements are functions
-- on the rows; times are left out, but for whether a row is deleted. Which call of the database fails
-- is an argument of a method, and whether a commit that fails has taken effect. The encoder of JSON is
-- a parameter.
mod Statements
pub mod Locks
pub mod Rows
pub mod Store
pub mod Encoded
unfoldable pub use Statements.{
  config_to_stored, stored_to_config, pipeline_check, pipeline_get, pipeline_remove,
  pipeline_delete, pipeline_update, pipeline_add, lock_check, lock_acquire, lock_release, ◌>>=◌,
}
pub use Statements.{Json, Failures, Lock, Stored, Row, Tables, id_of}
use Prim.Native.String.{◌++◌ as concat}
use neptunus.Base.{
  ℕ, String, Bool, true, false, not, ◌&&◌, ◌||◌, Option, none, some, List, [], ◌∷◌, ◌++◌, Result,
  ok, err, if◌then◌else◌, ◌==◌, string_comparable,
}
use neptunus.Core.Fields.{Error}
use neptunus.Config
use neptunus.Config.{Plugin, PluginSet, PipeSettings, end, field}
use neptunus.Pipeline.{PipeError, not_found, conflict, io, validation}

module _ (J : Json) where
  -- A call of the database, before the rest of a method that has changed nothing so far.
  abbrev call : Option Error → Tables J → Option PipeError × Tables J → Option PipeError × Tables J
  call (some e) db rest = (some (io e), db)
  call none db rest = rest

  -- A call that ends a transaction, explicit or of one statement: with an error the tables are as they
  -- were, or, if only the answer was lost, as the transaction leaves them.
  abbrev commit : Option Error → Bool → Tables J → Tables J → Option PipeError × Tables J
  commit none committed db db' = (none, db')
  commit (some e) committed db db' = (some (io e), if committed then db' else db)

  -- The loop of `List`, over the rows that are not deleted.
  unfoldable pub list_rows : List (Row J) → Result PipeError (List Config.Pipeline)
  unfolding stored_to_config
  list_rows [] = ok []
  list_rows (r ∷ rows) =
      let rest = list_rows rows in
      if r.deleted then rest else elim (stored_to_config J r.stored) [
        | err e ↦ err (validation e)
        | ok p ↦ elim rest [ err e ↦ err e | ok ps ↦ ok (p ∷ ps) ]
      ]

  unfoldable pub list : Failures → Tables J → Result PipeError (List Config.Pipeline)
  unfolding list_rows
  list fails db = elim (fails.error 0) [
    | some e ↦ err (io e)
    | none ↦ list_rows (J.by_id (id_of J) db.pipelines)
  ]

  unfoldable pub get : Failures → String → Tables J → Result PipeError Config.Pipeline
  unfolding pipeline_get stored_to_config
  get fails id db = elim (fails.error 0) [
    | some e ↦ err (io e)
    | none ↦ elim (pipeline_get J id db.pipelines) [
      | none ↦ err (not_found "no rows returned, there is no such pipeline")
      | some p ↦ elim (stored_to_config J p) [ err e ↦ err (validation e) | ok c ↦ ok c ]
    ]
  ]

  -- `Add` from its label `CLEANED_UP` on, with the rows that the transaction has left.
  unfoldable pub insert_stored :
      Failures → Config.Pipeline → List (Row J) → Tables J → Option PipeError × Tables J
  unfolding pipeline_add config_to_stored
  insert_stored fails pipe rows db = elim (config_to_stored J pipe) [
    | err e ↦ (some (validation e), db)
    | ok p ↦ call (fails.error 3) db (elim (pipeline_add J p rows) [
      | err e ↦ (some (io e), db)
      | ok rows' ↦ commit (fails.error 4) fails.committed db (record db { pipelines = rows' })
    ])
  ]

  -- `Add`: its calls begin a transaction, check, remove a deleted row, insert and commit.
  unfoldable pub add : Failures → Config.Pipeline → Tables J → Option PipeError × Tables J
  unfolding pipeline_check pipeline_remove insert_stored
  add fails pipe db = call (fails.error 0) db (
      call (fails.error 1) db (elim (pipeline_check J pipe.settings.id db.pipelines) [
        | none ↦ insert_stored fails pipe db.pipelines db
        | some r ↦
            if r.deleted
            then call (fails.error 2) db
                (insert_stored fails pipe (pipeline_remove J pipe.settings.id db.pipelines) db)
            else (some (conflict "pipeline already exists"), db)
      ]))

  -- What `Update` and `Delete` do first, in a transaction: no instance may hold a lock of the pipeline,
  -- and there must be a row that is not deleted. The text is that for a missing row.
  unfoldable pub editable :
      Failures
      → String
      → Error
      → Tables J
      → Option PipeError × Tables J
      → Option PipeError × Tables J
  unfolding pipeline_check lock_check
  editable fails id text db rest = call (fails.error 0) db (
      call (fails.error 1) db (elim (lock_check J id db.locks) [
        | l ∷ locks ↦ (some (conflict "pipeline has active locks"), db)
        | [] ↦ call (fails.error 2) db (elim (pipeline_check J id db.pipelines) [
          | none ↦ (some (not_found text), db)
          | some r ↦ if r.deleted then (some (not_found "pipeline already deleted"), db) else rest
        ])
      ]))

  unfoldable pub update : Failures → Config.Pipeline → Tables J → Option PipeError × Tables J
  unfolding editable config_to_stored pipeline_update
  update fails pipe db =
      editable fails pipe.settings.id "no rows returned, nothing to update" db
        (elim (config_to_stored J pipe) [
          | err e ↦ (some (validation e), db)
          | ok p ↦ call (fails.error 3) db (
              commit (fails.error 4) fails.committed db
                (record db { pipelines = pipeline_update J p db.pipelines }))
        ])

  unfoldable pub delete : Failures → String → Tables J → Option PipeError × Tables J
  unfolding editable pipeline_delete
  delete fails id db = editable fails id "no rows returned, nothing to delete" db (
      call (fails.error 3) db (
        commit (fails.error 4) fails.committed db
          (record db { pipelines = pipeline_delete J id db.pipelines })))

  -- `Acquire` and `Release` of an instance.
  unfoldable pub acquire : String → Failures → String → Tables J → Option PipeError × Tables J
  unfolding lock_acquire
  acquire instance_name fails id db = commit (fails.error 0) fails.committed db (record db {
    locks = lock_acquire J (record { instance_name = instance_name; pipeline = id }) db.locks;
  })

  unfoldable pub release : String → Failures → String → Tables J → Option PipeError × Tables J
  unfolding lock_release
  release instance_name fails id db = commit (fails.error 0) fails.committed db (record db {
    locks = lock_release J (record { instance_name = instance_name; pipeline = id }) db.locks;
  })
