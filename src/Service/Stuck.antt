-- ===== src/Service/Stuck.antt =====
-- pipeline/service/internal.go: a pipeline whose storage lock could not be acquired.
use neptunus.Base.{List, ◌≡◌, ◌≢◌, refl, true, none, some, ok}
use neptunus.Config
use neptunus.Assembly.{Registry}
use neptunus.Assembly.Stages.{build_error}
use neptunus.Pipeline.{building, PipeError, Pipeline, absent, is_idle, new_pipeline}
use neptunus.Pipeline.Storage.{Storage}
use neptunus.Service.{Service, PipeUnit, accepted, start}
use neptunus.Service.Starting.{
  Registered, built_ok, after_acquire, start_pipeline-lock_failed, Registered-after_build,
}
use neptunus.Service.Refusals.{Call, AllRefused, building-AllRefused}
use neptunus.Service.Races.{start-alone, fresh_pipeline, fresh_unit, before_start, alone}

-- `Start` of a registered idle pipeline builds it and then fails to acquire the storage's lock. Then
-- it fails, and leaves a pipeline in the state "building" that no goroutine runs, so that the state
-- does not change by itself; and of any later requests for the id, one after the other, whatever
-- happens while a request would wait, none succeeds.
pub lock_failed-stuck :
    (S : Storage) (R : Registry) (s : Service S.St) (u : PipeUnit) (o : Pipeline)
    (cfg : Config.Pipeline) (e : PipeError)
    → Registered cfg.settings.id s u o
    → is_idle o.state ≡ true
    → S.get cfg.settings.id s.store ≡ ok cfg
    → build_error R cfg ≡ none
    → (S.acquire cfg.settings.id s.store).0 ≡ some e
    → ((start S R alone cfg.settings.id s).0 ≢ accepted)
      × (v : PipeUnit) × (p : Pipeline) × Registered cfg.settings.id
          (start S R alone cfg.settings.id s).1
          v
          p
      × (p.state ≡ building)
      × (p.routine ≡ absent)
      × ((calls : List (Call S R cfg.settings.id))
          → AllRefused S R cfg.settings.id calls (start S R alone cfg.settings.id s).1)
unfolding new_pipeline
lock_failed-stuck S R s u o cfg e r i g h a =
    let id = cfg.settings.id in
    let n = new_pipeline cfg in
    let v = fresh_unit S R id s u o cfg in
    let t = before_start S R id s u o cfg in
    let at = fresh_pipeline S R id s u o cfg in
    let (refused, ends) = start_pipeline-lock_failed S R v t n at e h a in
    let reg = Registered-after_build S R v t n at (built_ok n) in
    let kept : Registered id (after_acquire S R v t n at) v (built_ok n) = record {
      unit = reg.unit;
      object = reg.object;
    } in
    rw (start-alone S R id s u o cfg r i g, ends)
      (
        refused,
        v,
        built_ok n,
        kept,
        refl,
        refl,
        λ calls.
            building-AllRefused S R id v (built_ok n) calls (after_acquire S R v t n at) kept refl,
      )
