-- ===== src/Pipeline.antt =====
-- pipeline/pipeline.go, pipeline/errors.go and pipeline/interfaces.go: the state of a pipeline, and
-- its way through `Build`, `Run` and the stop signal. The plugins are a
-- parameter, as in Assembly.antt.
pub mod Storage
pub mod Files
pub mod Postgres
pub mod Lifecycle
use neptunus.Base.{
  String, Bool, true, false, Option, none, some, List, [], ◌∷◌, Result, ok, err, if◌then◌else◌,
}
use neptunus.Core.Fields.{Error}
use neptunus.Config
use neptunus.Assembly.{Registry}
use neptunus.Assembly.Stages.{build_error}

pub data State : Type 0 where
  created building starting running stopping stopped : State

-- `StateCode`.
unfoldable pub state_code : State → String
state_code created = "created"
state_code building = "building"
state_code starting = "starting"
state_code running = "running"
state_code stopping = "stopping"
state_code stopped = "stopped"

-- The errors of pipeline/errors.go, by their kind and text.
pub data PipeError : Type 0 where
  not_found conflict io validation : Error → PipeError

-- Where the goroutine of a pipeline stands: not there, at each of the points of `Run` between which
-- the state is stored, and at its end.
pub data Routine : Type 0 where
  absent launched entered serving leaving exited : Routine

-- `done` is the context's: the stop signal has been given.
pub record Pipeline : Type 0 where
  pub config : Config.Pipeline
  pub state : State
  pub last_err : Option Error
  pub routine : Routine
  pub done : Bool

-- `New`.
unfoldable pub new_pipeline : Config.Pipeline → Pipeline
new_pipeline config = record {
  config = config;
  state = created;
  last_err = none;
  routine = absent;
  done = false;
}

-- `Build`, its deferred function included.
unfoldable pub build : Registry → Pipeline → Pipeline × Option Error
build R p = elim (build_error R p.config) [
  | none ↦ (record p { state = building; last_err = none }, none)
  | some e ↦ (record p { state = stopped; last_err = some e }, some e)
]

-- The next store of `Run`. The goroutine waits for the stop signal while it serves; when it leaves,
-- every unit has ended, and the deferred `cancel` is called.
unfoldable pub advance : Pipeline → Pipeline
advance p = elim p.routine [
  | absent ↦ p
  | launched ↦ record p { state = starting; routine = entered }
  | entered ↦ record p { state = running; routine = serving }
  | serving ↦ if p.done then record p { state = stopping; routine = leaving } else p
  | leaving ↦ record p { state = stopped; routine = exited; done = true }
  | exited ↦ p
]

-- A pipeline may be started, changed or deleted in these two states.
abbrev pub is_idle : State → Bool
is_idle created = true
is_idle stopped = true
is_idle _ = false
