-- ===== src/Tests/Services.antt =====
-- Pipelines, their storage and the service: config/pipeline.go, pipeline/.
use neptunus.Base.{
  List, ℕ, ◌≡◌, ◌≢◌, refl, String, Bool, true, false, Option, none, some, [], ◌∷◌, lookup, insert,
  remove, Result, ok, ◌==◌, string_comparable, if◌then◌else◌,
}
use neptunus.Config
use neptunus.Assembly.{◌>>=◌, pass, lifted, nested}
use neptunus.Assembly.Stages.{build_error}
use neptunus.Tests.Builds.{config, fine, config-builds}
use neptunus.Config.{
  Plugin, end, field, str, uint64, index, plugin_id, compressor, set_pipeline_defaults,
}
use neptunus.Pipeline.{
  Pipeline, build, PipeError, conflict, new_pipeline, building, absent, is_idle,
}
use neptunus.Pipeline.Storage.{Storage}
use neptunus.Service.{
  Service, PipeUnit, accepted, start, update, delete, pipeline_at, load_or_store, start_locked,
  create_pipeline, start_pipeline, acquire_and_run, start_conflict, delete_locked, edit_conflict,
}
use neptunus.Service.Starting.{Registered}
use neptunus.Service.Locking.{start-accepted, delete-accepted}
use neptunus.Service.Races.{alone}
use neptunus.Service.Stuck.{lock_failed-stuck}
use neptunus.Service.Refusals.{Call, AllRefused}
use neptunus.Service.Orphans.{IsOrphaned, update-orphans}

-- A storage of one configuration, whose locks another instance holds or not.
abbrev single : Bool → Storage
single held = record {
  St = Config.Pipeline;
  list = λ c. ok (c ∷ []);
  get = λ id c. ok c;
  add = λ new c. (none, new);
  update = λ new c. (none, new);
  delete = λ id c. (none, c);
  acquire = λ id c. (if held then some (conflict "held") else none, c);
  release = λ id c. (none, c);
}

abbrev unit_p : PipeUnit
unit_p = record { p = 0; mu = 0; c = none }

abbrev idle_service : Service Config.Pipeline
idle_service = record {
  pipes = ("p", unit_p) ∷ [];
  objects = new_pipeline config ∷ [];
  locks = 1;
  store = config;
}

abbrev idle_registered : Registered "p" idle_service unit_p (new_pipeline config)
idle_registered = record { unit = unfold lookup in refl; object = refl }

idle : is_idle (new_pipeline config).state ≡ true
unfolding new_pipeline
idle = refl

start-IsAccepted : (start (single false) fine alone "p" idle_service).0 ≡ accepted
unfolding start lookup insert load_or_store start_locked create_pipeline new_pipeline start_pipeline
    acquire_and_run start_conflict build build_error ◌>>=◌ pass lifted nested Config.alias
start-IsAccepted = refl

start-accepted_example :
    (cfg : Config.Pipeline) × (u : PipeUnit) × (o : Pipeline) × ◌≡◌
      {A = Result PipeError Config.Pipeline}
      (ok config)
      (ok cfg)
    × Registered "p" (alone (load_or_store (single false) fine "p" cfg idle_service).1) u o
    × (is_idle o.state ≡ true)
start-accepted_example = start-accepted (single false) fine alone "p" idle_service start-IsAccepted

delete-IsAccepted : (delete (single false) fine alone "p" idle_service).0 ≡ accepted
unfolding delete lookup remove delete_locked new_pipeline edit_conflict
delete-IsAccepted = refl

delete-accepted_example :
    (u : PipeUnit) × (o : Pipeline) × (lookup "p" idle_service.pipes ≡ some u)
    × (pipeline_at u.p idle_service ≡ some o)
    × (is_idle o.state ≡ true)
    × ◌≡◌ {A = Option PipeError} none none
    × ((k : String)
        → lookup k (delete (single false) fine alone "p" idle_service).1.pipes
          ≡ (if "p" == k then none else lookup k idle_service.pipes))
    × ((delete (single false) fine alone "p" idle_service).1.objects ≡ idle_service.objects)
    × ((delete (single false) fine alone "p" idle_service).1.store
        ≡ ((single false).delete "p" idle_service.store).1)
delete-accepted_example =
    delete-accepted (single false) fine alone "p" idle_service delete-IsAccepted

lock_failed-stuck_example :
    ((start (single true) fine alone "p" idle_service).0 ≢ accepted)
    × (v : PipeUnit) × (p : Pipeline) × Registered "p"
        (start (single true) fine alone "p" idle_service).1
        v
        p
    × (p.state ≡ building)
    × (p.routine ≡ absent)
    × ((calls : List (Call (single true) fine "p"))
        → AllRefused
            (single true)
            fine
            "p"
            calls
            (start (single true) fine alone "p" idle_service).1)
lock_failed-stuck_example =
    lock_failed-stuck (single true) fine idle_service unit_p (new_pipeline config) config
      (conflict "held") idle_registered idle refl config-builds refl

update-orphans_example :
    (q : ℕ) × (p : Pipeline) × (v : PipeUnit) × ((update
        (single false)
        fine
        (λ t. (start (single false) fine alone "p" t).1)
        config
        idle_service).0
      ≡ accepted)
    × IsOrphaned
        (single false)
        fine
        "p"
        (update
          (single false)
          fine
          (λ t. (start (single false) fine alone "p" t).1)
          config
          idle_service).1
        q
        p
        v
update-orphans_example =
    update-orphans (single false) fine idle_service unit_p (new_pipeline config) config config refl
      idle_registered idle refl config-builds refl refl
