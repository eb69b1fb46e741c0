-- ===== src/Service/Starting.antt =====
-- pipeline/service/internal.go: the three ends of `startPipeline`.
use neptunus.Base.{
  ◌≡◌, ◌≢◌, refl, String, false, none, some, get_elem?, set, Assoc, lookup, insert, lookup-insert,
  get_elem?-set_self, string_comparable, ==_refl,
}
use neptunus.Core.Fields.{Error}
use neptunus.Assembly.{Registry}
use neptunus.Assembly.Stages.{build_error}
use neptunus.Pipeline.{building, stopped, PipeError, Pipeline, launched, build}
use neptunus.Pipeline.Storage.{Storage}
use neptunus.Service.{
  Service, PipeUnit, accepted, store_unit, set_pipeline, start_pipeline, acquire_and_run,
}

-- Under `id` the registry has the unit `u`, and `u` points to the object `o`.
pub record Registered {St : Type 0} (id : String) (s : Service St) (u : PipeUnit) (o : Pipeline)
    : Type 0 where
  pub unit : lookup id s.pipes ≡ some u
  pub object : get_elem? s.objects u.p ≡ some o

pub lookup-insert_self :
    (id : String) (u : PipeUnit) (m : Assoc String PipeUnit) → lookup id (insert id u m) ≡ some u
lookup-insert_self id u m = rw (lookup-insert id id u m, ==_refl id) refl

-- The pipeline that `Build` leaves, after a success and after a failure.
abbrev pub built_ok : Pipeline → Pipeline
built_ok o = record o { state = building; last_err = none }

abbrev pub built_failed : Error → Pipeline → Pipeline
built_failed e o = record o { state = stopped; last_err = some e }

abbrev pub launched_pipeline : Pipeline → Pipeline
launched_pipeline o = record (built_ok o) { routine = launched; done = false }

build-ok :
    (R : Registry) (o : Pipeline) → build_error R o.config ≡ none → build R o ≡ (built_ok o, none)
unfolding build
build-ok R o h = rw (h, build) refl

build-failed :
    (R : Registry) (o : Pipeline) (e : Error)
    → build_error R o.config ≡ some e
    → build R o ≡ (built_failed e o, some e)
unfolding build
build-failed R o e h = rw (h, build) refl

module _ (S : Storage) (R : Registry) (u : PipeUnit) (s : Service S.St) (o : Pipeline)
    (at : get_elem? s.objects u.p ≡ some o) where
  abbrev id : String
  id = o.config.settings.id

  -- The service at the three ends of `startPipeline`.
  abbrev pub after_build : Pipeline → Service S.St
  after_build o' = set_pipeline u.p o' (store_unit id u s)

  abbrev pub after_acquire : Service S.St
  after_acquire = record (after_build (built_ok o)) { store = (S.acquire id s.store).1 }

  abbrev pub after_launch : Service S.St
  after_launch =
      store_unit id (record u { c = some u.p })
        (set_pipeline u.p (launched_pipeline o) after_acquire)

  pub start_pipeline-build_failed :
      (e : Error)
      → build_error R o.config ≡ some e
      → ((start_pipeline S R u s).0 ≢ accepted)
        × ((start_pipeline S R u s).1 ≡ after_build (built_failed e o))
  unfolding start_pipeline acquire_and_run
  start_pipeline-build_failed e h =
      rw (at, start_pipeline, build-failed R o e h, build-failed R o e h) (λ q. cc, refl)

  pub start_pipeline-lock_failed :
      (e : PipeError)
      → build_error R o.config ≡ none
      → (S.acquire id s.store).0 ≡ some e
      → ((start_pipeline S R u s).0 ≢ accepted) × ((start_pipeline S R u s).1 ≡ after_acquire)
  unfolding start_pipeline acquire_and_run
  start_pipeline-lock_failed e h a =
      rw (at, start_pipeline, build-ok R o h, a, acquire_and_run, build-ok R o h) (λ q. cc, refl)

  pub start_pipeline-accepted :
      build_error R o.config ≡ none
      → (S.acquire id s.store).0 ≡ none
      → start_pipeline S R u s ≡ (accepted, after_launch)
  unfolding start_pipeline acquire_and_run
  start_pipeline-accepted h a =
      rw (at, start_pipeline, build-ok R o h, a, acquire_and_run, build-ok R o h)

  -- What is registered at these ends.
  pub Registered-after_build : (o' : Pipeline) → Registered id (after_build o') u o'
  Registered-after_build o' = record {
    unit = lookup-insert_self id u s.pipes;
    object = get_elem?-set_self s.objects u.p o' o at;
  }

  pub Registered-after_launch :
      Registered id after_launch (record u { c = some u.p }) (launched_pipeline o)
  Registered-after_launch = record {
    unit = lookup-insert_self id _ (insert id u s.pipes);
    object =
        get_elem?-set_self (set s.objects u.p (built_ok o)) u.p (launched_pipeline o) (built_ok o)
          (get_elem?-set_self s.objects u.p (built_ok o) o at);
  }
