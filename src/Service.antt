-- ===== src/Service.antt =====
-- pipeline/service/internal.go: the registry of pipelines and the requests that start, stop and
-- change them. Pipelines are shared objects: a unit holds the address of one, and so does its
-- goroutine. A request that takes a unit's lock may wait for it; what the other goroutines do in the
-- meantime is its argument `wait`, any function on the service. From the lock on a request is one
-- step, since every other change to that unit wants the same lock.
pub mod Starting
pub mod Locking
pub mod Races
pub mod Refusals
pub mod Stuck
pub mod Orphans
use Prim.Native.String.{◌++◌ as concat}
use neptunus.Base.{
  ℕ, ◌+◌, String, Bool, true, false, Option, none, some, List, [], ◌∷◌, ◌++◌, length, get_elem?,
  set, Assoc, lookup, insert, remove, Result, ok, err, string_comparable, if◌then◌else◌,
}
use neptunus.Config
use neptunus.Core.Fields.{Error}
use neptunus.Assembly.{Registry}
use neptunus.Pipeline.{
  State, created, building, starting, running, stopping, stopped, PipeError, not_found, conflict,
  io, validation, Pipeline, Routine, launched, new_pipeline, build, state_code, is_idle,
}
use neptunus.Pipeline.Storage.{Storage}

-- `pipeUnit`: the addresses of the pipeline and of the lock, and the `cancel` function, by the
-- address of the pipeline whose context it ends.
pub record PipeUnit : Type 0 where
  pub p : ℕ
  pub mu : ℕ
  pub c : Option ℕ

abbrev pub new_unit : ℕ → ℕ → PipeUnit
new_unit p mu = record { p = p; mu = mu; c = none }

-- `internalService`, with the objects that it has created.
pub record Service (St : Type 0) : Type 0 where
  pub pipes : Assoc String PipeUnit
  pub objects : List Pipeline
  pub locks : ℕ
  pub store : St

-- The end of a request: done, an error, or a panic on a nil pointer.
pub data Reply : Type 0 where
  accepted panicked : Reply
  failed : PipeError → Reply

-- The `switch` of `Start`.
unfoldable pub start_conflict : State → Option Error
start_conflict running = some "pipeline already running"
start_conflict stopping = some "pipeline stopping, please wait"
start_conflict building = some "pipeline building, please wait"
start_conflict starting = some "pipeline starting, please wait"
start_conflict _ = none

-- The `switch` of `Stop`.
unfoldable pub stop_conflict : State → Option Error
stop_conflict stopped = some "pipeline already stopped"
stop_conflict created = some "pipeline already stopped"
stop_conflict stopping = some "pipeline stopping, please wait"
stop_conflict building = some "pipeline building, please wait"
stop_conflict starting = some "pipeline starting, please wait"
stop_conflict running = none

-- The `switch` of `Update` and of `Delete`.
unfoldable pub edit_conflict : Error → State → Option Error
edit_conflict text s = if is_idle s then none else some text

abbrev pub error_text : PipeError → Error
error_text (not_found e) = e
error_text (conflict e) = e
error_text (io e) = e
error_text (validation e) = e

-- `fmt.Errorf` with two verbs.
abbrev wrapped : String → String → String → String → String
wrapped a id R e = concat a (concat id (concat R e))

abbrev pub absent_unit : PipeError
absent_unit = not_found "pipeline unit not found in runtime registry"

-- The error of a storage method, as the request's reply.
abbrev pub reply_of : Option PipeError → Reply
reply_of none = accepted
reply_of (some e) = failed e

module _ {St : Type 0} where
  -- `createPipeline` of `pipeline.New`: a new object, and its address.
  unfoldable pub create_pipeline : Config.Pipeline → Service St → ℕ × Service St
  unfolding new_pipeline
  create_pipeline cfg s =
      (length s.objects, record s { objects = s.objects ++ new_pipeline cfg ∷ [] })

  -- `&sync.Mutex{}`.
  abbrev pub new_lock : Service St → ℕ × Service St
  new_lock s = (s.locks, record s { locks = s.locks + 1 })

  -- `m.pipes.Store(id, unit)`.
  abbrev pub store_unit : String → PipeUnit → Service St → Service St
  store_unit id u s = record s { pipes = insert id u s.pipes }

  -- The object at an address.
  abbrev pub pipeline_at : ℕ → Service St → Option Pipeline
  pipeline_at p s = get_elem? s.objects p

  abbrev pub set_pipeline : ℕ → Pipeline → Service St → Service St
  set_pipeline p o s = record s { objects = set s.objects p o }

  -- The check of the state of the object at `p`, and then the rest of the request.
  abbrev pub checked :
      (State → Option Error) → ℕ → Service St → (Pipeline → Reply × Service St) → Reply × Service St
  checked test p s rest = elim (pipeline_at p s) [
    | none ↦ (panicked, s)
    | some o ↦ elim (test o.state) [ some text ↦ (failed (conflict text), s) | none ↦ rest o ]
  ]

module _ (S : Storage) (R : Registry) where
  open S use {St}

  -- From `m.s.Acquire` in `startPipeline` on, with the pipeline built.
  unfoldable pub acquire_and_run : String → PipeUnit → Pipeline → Service St → Reply × Service St
  acquire_and_run id u o s =
      let (e, store') = S.acquire id s.store in
      let s' = record s { store = store' } in
      elim e [
        | some text ↦
            (failed (conflict (wrapped "pipeline " id " lock failed: " (error_text text))), s')
        | none ↦ (
          accepted,
          store_unit id (record u { c = some u.p })
              (set_pipeline u.p (record o { routine = launched; done = false }) s'),
        )
      ]

  -- `startPipeline`. `Close` ends the plugins, and changes nothing of what is modelled here.
  unfoldable pub start_pipeline : PipeUnit → Service St → Reply × Service St
  unfolding acquire_and_run
  start_pipeline u s = elim (pipeline_at u.p s) [
    | none ↦ (panicked, s)
    | some o ↦
        let id = o.config.settings.id in
        let s₁ = store_unit id u s in
        let built = build R o in
        let s₂ = set_pipeline u.p built.0 s₁ in
        elim built.1 [
          | some e ↦ (failed (validation (wrapped "pipeline " id " build failed: " e)), s₂)
          | none ↦ acquire_and_run id u built.0 s₂
        ]
  ]

  -- The call of a unit's `cancel` function, where it has one.
  unfoldable pub cancel : Option ℕ → Service St → Service St
  cancel none s = s
  cancel (some p) s = elim (pipeline_at p s) [
    | none ↦ s
    | some o ↦ set_pipeline p (record o { done = true }) s
  ]

  -- `stopPipeline`. An error of `Release` is only logged.
  unfoldable pub stop_pipeline : PipeUnit → Service St → Service St
  unfolding cancel
  stop_pipeline u s =
      let s' = cancel u.c s in
      elim (pipeline_at u.p s) [
        | none ↦ s'
        | some o ↦ record s' { store = (S.release o.config.settings.id s'.store).1 }
      ]

  -- `LoadOrStore` of a new unit: the unit that is registered then, and the service.
  unfoldable pub load_or_store : String → Config.Pipeline → Service St → PipeUnit × Service St
  unfolding create_pipeline
  load_or_store id cfg s =
      let (p, s₁) = create_pipeline cfg s in
      let (mu, s₂) = new_lock s₁ in
      let fresh = new_unit p mu in
      elim (lookup id s.pipes) [ some u ↦ (u, s₂) | none ↦ (fresh, store_unit id fresh s₂) ]

  -- `Start` once it holds the lock of the unit that it found: it loads the unit again.
  unfoldable pub start_locked : String → Config.Pipeline → Service St → Reply × Service St
  unfolding start_conflict create_pipeline start_pipeline
  start_locked id cfg s = elim (lookup id s.pipes) [
    | none ↦ (panicked, s)
    | some u ↦
        checked start_conflict u.p s
          λ _. let (p, s') = create_pipeline cfg s in start_pipeline (new_unit p u.mu) s'
  ]

  -- `Start`.
  unfoldable pub start : (Service St → Service St) → String → Service St → Reply × Service St
  unfolding start_conflict load_or_store start_locked
  start wait id s = elim (S.get id s.store) [
    | err e ↦ (failed e, s)
    | ok cfg ↦
        let (u, s') = load_or_store id cfg s in
        checked start_conflict u.p s' λ _. start_locked id cfg (wait s')
  ]

  -- `Stop` after its lock: the unit is the one that was loaded before.
  unfoldable pub stop : (Service St → Service St) → String → Service St → Reply × Service St
  unfolding stop_conflict stop_pipeline
  stop wait id s = elim (lookup id s.pipes) [
    | none ↦ (failed absent_unit, s)
    | some u ↦
        checked stop_conflict u.p s
          λ _. let s' = wait s in checked stop_conflict u.p s' λ _. (accepted, stop_pipeline u s')
  ]

  unfoldable pub state_of : String → Service St → Result PipeError (String × Option Error)
  unfolding state_code
  state_of id s = elim (lookup id s.pipes) [
    | none ↦ err absent_unit
    | some u ↦ elim (pipeline_at u.p s) [
      | none ↦ err absent_unit
      | some o ↦ ok (state_code o.state, o.last_err)
    ]
  ]

  -- `Add`.
  unfoldable pub add : Config.Pipeline → Service St → Reply × Service St
  unfolding create_pipeline
  add cfg s =
      let id = cfg.settings.id in
      elim (lookup id s.pipes) [
        | some _ ↦ (failed (conflict "pipeline unit exists in runtime registry"), s)
        | none ↦
            let (e, store') = S.add cfg s.store in
            let s' = record s { store = store' } in
            elim e [
              | some x ↦ (failed x, s')
              | none ↦
                  let (p, s₁) = create_pipeline cfg s' in
                  let (mu, s₂) = new_lock s₁ in (accepted, store_unit id (new_unit p mu) s₂)
            ]
      ]

  -- `Update` once it holds the lock of `u`.
  unfoldable pub update_locked : Config.Pipeline → PipeUnit → Service St → Reply × Service St
  unfolding edit_conflict create_pipeline
  update_locked cfg u s = checked (edit_conflict "only stopped pipelines can be updated") u.p s λ _.
      let (e, store') = S.update cfg s.store in
      let s' = record s { store = store' } in
      elim e [
        | some x ↦ (failed x, s')
        | none ↦
            let (p, s₁) = create_pipeline cfg s' in
            (accepted, store_unit cfg.settings.id (new_unit p u.mu) s₁)
      ]

  unfoldable pub update :
      (Service St → Service St) → Config.Pipeline → Service St → Reply × Service St
  unfolding edit_conflict update_locked
  update wait cfg s = elim (lookup cfg.settings.id s.pipes) [
    | none ↦ (failed absent_unit, s)
    | some u ↦
        checked (edit_conflict "only stopped pipelines can be updated") u.p s
          λ _. update_locked cfg u (wait s)
  ]

  -- `Delete` once it holds the lock of `u`.
  unfoldable pub delete_locked : String → PipeUnit → Service St → Reply × Service St
  unfolding edit_conflict
  delete_locked id u s = checked (edit_conflict "only stopped pipelines can be deleted") u.p s λ _.
      let (e, store') = S.delete id s.store in
      let s' = record s { store = store' } in
      elim e [
        | some x ↦ (failed x, s')
        | none ↦ (accepted, record s' { pipes = remove id s'.pipes })
      ]

  unfoldable pub delete : (Service St → Service St) → String → Service St → Reply × Service St
  unfolding edit_conflict delete_locked
  delete wait id s = elim (lookup id s.pipes) [
    | none ↦ (failed absent_unit, s)
    | some u ↦
        checked (edit_conflict "only stopped pipelines can be deleted") u.p s
          λ _. delete_locked id u (wait s)
  ]

  -- The loop of `startSync`: the errors, and the service.
  unfoldable pub start_each : List Config.Pipeline → Service St → List PipeError × Service St
  unfolding create_pipeline start_pipeline
  start_each [] s = ([], s)
  start_each (cfg ∷ cfgs) s =
      let (p, s₁) = create_pipeline cfg s in
      let (mu, s₂) = new_lock s₁ in
      let u = new_unit p mu in
      let s₃ = store_unit cfg.settings.id u s₂ in
      let (r, s₄) = if cfg.settings.run then start_pipeline u s₃ else (accepted, s₃) in
      let (es, s₅) = start_each cfgs s₄ in
      (elim r [ failed e ↦ e ∷ es | accepted ↦ es | panicked ↦ es ], s₅)

  -- `startSync`.
  unfoldable pub start_sync : Service St → Result PipeError (List PipeError) × Service St
  unfolding start_each
  start_sync s = elim (S.list s.store) [
    | err e ↦ (err e, s)
    | ok pipes ↦ let (es, s') = start_each pipes s in (ok es, s')
  ]

  -- `StopAll`, up to its wait for the goroutines, over the units in the order of `Range`.
  unfoldable pub stop_each : List PipeUnit → Service St → Service St
  unfolding stop_pipeline
  stop_each [] s = s
  stop_each (u ∷ us) s = stop_each us (stop_pipeline u s)
