-- ===== src/Service/Orphans.antt =====
-- pipeline/service/internal.go: `Update` checks the pipeline that it loaded before it waited for the
-- lock, and not the one that is registered then.
use neptunus.Base.{
  ℕ, suc, ◌≡◌, ◌≢◌, refl, ap, ◌∙◌, String, false, true, none, some, [], ◌∷◌, ◌++◌, lookup, length,
  set, ok, arith, string_comparable, get_elem?-set_ne, get_elem?-append_left, get_elem?-append_end,
  get_elem?-lt_length, length-append, length-set,
}
use neptunus.Config
use neptunus.Assembly.{Registry}
use neptunus.Assembly.Stages.{build_error}
use neptunus.Pipeline.{launched, created, conflict, Pipeline, is_idle, new_pipeline}
use neptunus.Pipeline.Storage.{Storage}
use neptunus.Service.{
  Service, PipeUnit, new_unit, Reply, accepted, failed, stop, stop_conflict, start, update,
  update_locked, create_pipeline, store_unit, pipeline_at, checked,
}
use neptunus.Service.Starting.{
  Registered, built_ok, launched_pipeline, after_launch, start_pipeline-accepted,
  Registered-after_launch, lookup-insert_self,
}
use neptunus.Service.Locking.{idle-edit_conflict, checked-refuse}
use neptunus.Service.Races.{
  start-alone, fresh, fresh_pipeline, fresh_unit, before_start, alone, loaded, still_there,
}

module _ (S : Storage) (R : Registry) where
  -- `Update` with a unit whose pipeline is idle when it has the lock.
  update_locked_idle :
      (cfg : Config.Pipeline) (u : PipeUnit) (s : Service S.St) (o : Pipeline)
      → pipeline_at u.p s ≡ some o
      → is_idle o.state ≡ true
      → (S.update cfg s.store).0 ≡ none
      → update_locked S R cfg u s ≡ (
        accepted,
        store_unit cfg.settings.id (new_unit (length s.objects) u.mu) (record s {
          store = (S.update cfg s.store).1;
          objects = s.objects ++ new_pipeline cfg ∷ [];
        }),
      )
  unfolding update_locked create_pipeline
  update_locked_idle cfg u s o at i h =
      rw (at, update_locked, checked, idle-edit_conflict _ o.state i, h)

  update_idle :
      (wait : Service S.St → Service S.St) (cfg : Config.Pipeline) (s : Service S.St) (u : PipeUnit)
      (o : Pipeline)
      → Registered cfg.settings.id s u o
      → is_idle o.state ≡ true
      → update S R wait cfg s ≡ update_locked S R cfg u (wait s)
  unfolding update
  update_idle wait cfg s u o r i =
      rw (r.unit, update, r.object, checked, idle-edit_conflict _ o.state i)

module _ (S : Storage) (R : Registry) (s : Service S.St) (u : PipeUnit) (o : Pipeline)
    (old : Config.Pipeline) where
  abbrev id : String
  id = old.settings.id

  -- The address of the pipeline that `Start` launches, and the service then.
  abbrev q : ℕ
  q = fresh S R id s u o old

  abbrev t : Service S.St
  t = before_start S R id s u o old

  abbrev started : Service S.St
  started =
      after_launch S R (fresh_unit S R id s u o old) t (new_pipeline old)
        (fresh_pipeline S R id s u o old)

  q-ne : Registered id s u o → q ≢ u.p
  q-ne r e = omega (
    arith,
    get_elem?-lt_length s.objects u.p o r.object,
    length-append s.objects (new_pipeline old ∷ []),
    e,
  )

  started-keeps : Registered id s u o → pipeline_at u.p started ≡ some o
  unfolding new_pipeline
  started-keeps r =
      get_elem?-set_ne (set t.objects q (built_ok (new_pipeline old))) q u.p _ (q-ne r)
      ∙ get_elem?-set_ne t.objects q u.p _ (q-ne r)
      ∙ still_there S R id s u o old r

  length-started : length started.objects ≡ suc q
  length-started =
      length-set (set t.objects q (built_ok (new_pipeline old))) q _
      ∙ length-set t.objects q _
      ∙ length-append (loaded old s).objects (new_pipeline old ∷ [])
      ∙ omega arith

stop_created :
    (S : Storage) (R : Registry) (id : String) (s : Service S.St) (v : PipeUnit) (o : Pipeline)
    → Registered id s v o
    → o.state ≡ created
    → (wait : Service S.St → Service S.St)
    → stop S R wait id s ≡ (failed (conflict "pipeline already stopped"), s)
unfolding stop stop_conflict
stop_created S R id s v o r at wait =
    rw (r.unit, stop)
      (checked-refuse stop_conflict v.p s _ o "pipeline already stopped" r.object (rw at refl))

-- What `q` points to runs with no stop signal, the unit registered under the id points elsewhere and
-- has no `cancel` function, and a `Stop` of the id is refused.
pub record IsOrphaned (S : Storage) (R : Registry) (id : String) (s : Service S.St) (q : ℕ)
    (p : Pipeline) (v : PipeUnit) : Type 0 where
  pub object : pipeline_at q s ≡ some p
  pub runs : p.routine ≡ launched
  pub not_signalled : p.done ≡ false
  pub unit : lookup id s.pipes ≡ some v
  pub elsewhere : v.p ≢ q
  pub no_cancel : v.c ≡ none
  pub not_stopped :
      (wait : Service S.St → Service S.St)
      → stop S R wait id s ≡ (failed (conflict "pipeline already stopped"), s)

-- An `Update` finds an idle pipeline and waits for the lock, while a `Start` of the same id launches
-- the pipeline. Then, if the storage's `Update` succeeds although its lock is held, the update
-- succeeds: the pipeline launched runs, while the unit registered for the id points to a new pipeline
-- and has no `cancel` function, and a `Stop` of the id is refused, since that one counts as stopped.
pub update-orphans :
    (S : Storage) (R : Registry) (s : Service S.St) (u : PipeUnit) (o : Pipeline)
    (old cfg : Config.Pipeline)
    → cfg.settings.id ≡ old.settings.id
    → Registered old.settings.id s u o
    → is_idle o.state ≡ true
    → S.get old.settings.id s.store ≡ ok old
    → build_error R old ≡ none
    → (S.acquire old.settings.id s.store).0 ≡ none
    → (S.update cfg (S.acquire old.settings.id s.store).1).0 ≡ none
    → (q : ℕ) × (p : Pipeline) × (v : PipeUnit) × ((update S R
          (λ t. (start S R alone old.settings.id t).1)
          cfg
          s).0
        ≡ accepted)
      × IsOrphaned S R old.settings.id
          (update S R (λ t. (start S R alone old.settings.id t).1) cfg s).1
          q
          p
          v
unfolding new_pipeline
update-orphans S R s u o old cfg e r i g h a w =
    let n = new_pipeline old in
    let address = q S R s u o old in
    let v = new_unit (length (started S R s u o old).objects) u.mu in
    let launch : start S R alone old.settings.id s ≡ (accepted, started S R s u o old) =
      start-alone S R old.settings.id s u o old r i g
      ∙ start_pipeline-accepted S R (fresh_unit S R old.settings.id s u o old) (t S R s u o old) n
          (fresh_pipeline S R old.settings.id s u o old) h a in
    let reg =
      Registered-after_launch S R (fresh_unit S R old.settings.id s u o old) (t S R s u o old) n
        (fresh_pipeline S R old.settings.id s u o old) in
    let step =
      update_idle S R (λ t. (start S R alone old.settings.id t).1) cfg s u o (rw e r) i
      ∙ ap (λ (x : Reply × Service S.St). update_locked S R cfg u x.1) launch
      ∙ update_locked_idle S R cfg u (started S R s u o old) o (started-keeps S R s u o old r) i
          w in
    (
      address,
      launched_pipeline n,
      v,
      rw step refl,
      rw step (record {
        object =
            get_elem?-append_left (started S R s u o old).objects _ address (launched_pipeline n)
              reg.object;
        runs = refl;
        not_signalled = refl;
        unit = rw e (lookup-insert_self old.settings.id v (started S R s u o old).pipes);
        elsewhere = λ same. omega (arith, length-started S R s u o old, same);
        no_cancel = refl;
        not_stopped =
            stop_created S R old.settings.id _ v (new_pipeline cfg)
              (record {
                unit = rw e (lookup-insert_self old.settings.id v (started S R s u o old).pipes);
                object = get_elem?-append_end (started S R s u o old).objects (new_pipeline cfg);
              })
              refl;
      }),
    )
