-- ===== src/Service/Races.antt =====
-- pipeline/service/internal.go: units that no request can reach any more.
use neptunus.Base.{
  ℕ, ◌+◌, ◌≡◌, refl, ◌∙◌, String, true, some, ◌++◌, [], ◌∷◌, string_comparable, ok, get_elem?,
  length, get_elem?-append_end, get_elem?-append_left,
}
use neptunus.Config
use neptunus.Core.Fields.{Error}
use neptunus.Assembly.{Registry}
use neptunus.Pipeline.{Pipeline, is_idle, new_pipeline}
use neptunus.Pipeline.Storage.{Storage}
use neptunus.Service.{
  Service, PipeUnit, new_unit, create_pipeline, load_or_store, start_pipeline, start,
}
use neptunus.Service.Starting.{Registered}
use neptunus.Service.Locking.{start_idle}

abbrev pub text : Error
text = "pipeline building, please wait"

-- What happens while a request does not wait.
abbrev pub alone : {St : Type 0} → Service St → Service St
alone t = t

-- The service after a request that made the pipeline of a configuration, and perhaps a lock.
abbrev pub loaded : {St : Type 0} → Config.Pipeline → Service St → Service St
loaded cfg s = record s { objects = s.objects ++ new_pipeline cfg ∷ []; locks = s.locks + 1 }

abbrev pub made : {St : Type 0} → Config.Pipeline → Service St → Service St
made cfg s = record s { objects = s.objects ++ new_pipeline cfg ∷ [] }

module _ (S : Storage) (R : Registry) (id : String) (s : Service S.St) (u : PipeUnit) (o : Pipeline)
    (cfg : Config.Pipeline) where
  -- The address of the pipeline that `Start` of a registered id makes, and its unit.
  abbrev pub fresh : ℕ
  fresh = length (loaded cfg s).objects

  abbrev pub fresh_unit : PipeUnit
  fresh_unit = new_unit fresh u.mu

  abbrev pub before_start : Service S.St
  before_start = made cfg (loaded cfg s)

  pub fresh_pipeline : get_elem? before_start.objects fresh ≡ some (new_pipeline cfg)
  fresh_pipeline = get_elem?-append_end (loaded cfg s).objects (new_pipeline cfg)

  pub still_there : Registered id s u o → get_elem? before_start.objects u.p ≡ some o
  still_there r =
      get_elem?-append_left (loaded cfg s).objects _ u.p o
        (get_elem?-append_left s.objects _ u.p o r.object)

  pub start-alone :
      Registered id s u o
      → is_idle o.state ≡ true
      → S.get id s.store ≡ ok cfg
      → start S R alone id s ≡ start_pipeline S R fresh_unit before_start
  unfolding load_or_store create_pipeline
  start-alone r i g =
      let eq : load_or_store S R id cfg s ≡ (u, loaded cfg s) = rw (r.unit, load_or_store) refl in
      start_idle S R alone id cfg s u o o g
        (rw eq (get_elem?-append_left s.objects _ u.p o r.object)) i
        (rw eq
          (record { unit = r.unit; object = get_elem?-append_left s.objects _ u.p o r.object }))
        i
      ∙ rw eq refl
