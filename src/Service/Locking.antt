-- ===== src/Service/Locking.antt =====
-- pipeline/service/internal.go: what a request finds once it holds a unit's lock decides it,
-- whatever the other goroutines did while it waited.
use neptunus.Base.{
  ℕ, ◌≡◌, ◌≢◌, refl, String, true, Option, none, some, lookup, remove, lookup-remove, arith,
  string_comparable, Option-cases, ok, Result-cases, inl, inr, ◌==◌, if◌then◌else◌, length,
}
use neptunus.Config
use neptunus.Core.Fields.{Error}
use neptunus.Assembly.{Registry}
use neptunus.Pipeline.{State, PipeError, conflict, Pipeline, is_idle}
use neptunus.Pipeline.Storage.{Storage}
use neptunus.Service.{
  Service, PipeUnit, Reply, accepted, panicked, failed, start_conflict, edit_conflict, pipeline_at,
  checked, load_or_store, create_pipeline, start_pipeline, new_unit, start_locked, start, delete,
  delete_locked,
}
use neptunus.Service.Starting.{Registered}

panicked-ne-accepted : panicked ≢ accepted
panicked-ne-accepted q = cc

pub failed-ne-accepted : (e : PipeError) → failed e ≢ accepted
failed-ne-accepted e q = cc

module _ {St : Type 0} (test : State → Option Error) (p : ℕ) (s : Service St)
    (rest : Pipeline → Reply × Service St) where
  pub checked-pass :
      (o : Pipeline)
      → pipeline_at p s ≡ some o
      → test o.state ≡ none
      → checked test p s rest ≡ rest o
  checked-pass o at t = rw (at, checked, t)

  pub checked-refuse :
      (o : Pipeline) (text : Error)
      → pipeline_at p s ≡ some o
      → test o.state ≡ some text
      → checked test p s rest ≡ (failed (conflict text), s)
  checked-refuse o text at t = rw (at, checked, t)

  pub checked-refused :
      (o : Pipeline) (text : Error)
      → pipeline_at p s ≡ some o
      → test o.state ≡ some text
      → (checked test p s rest).0 ≢ accepted
  checked-refused o text at t q = failed-ne-accepted _ (rw (at, checked, t) at q)

  -- A request that succeeds has passed the check.
  pub checked-accepted :
      (checked test p s rest).0 ≡ accepted
      → (o : Pipeline) × (pipeline_at p s ≡ some o)
        × (test o.state ≡ none)
        × ((rest o).0 ≡ accepted)
  checked-accepted h = elim (Option-cases (pipeline_at p s)) [
    | inl e ↦ absurd (panicked-ne-accepted (rw (e, checked) at h))
    | inr e ↦ elim (Option-cases (test e.0.state)) [
      | inl t ↦ (e.0, e.1, t, rw (e.1, checked, t) at h)
      | inr t ↦ absurd (failed-ne-accepted _ (rw (e.1, checked, t.1) at h))
    ]
  ]

start_conflict-idle : (t : State) → start_conflict t ≡ none → is_idle t ≡ true
unfolding start_conflict
start_conflict-idle t h = ground arith

idle-start_conflict : (t : State) → is_idle t ≡ true → start_conflict t ≡ none
unfolding start_conflict
idle-start_conflict t h = ground arith

pub idle-edit_conflict : (text : Error) (t : State) → is_idle t ≡ true → edit_conflict text t ≡ none
unfolding edit_conflict
idle-edit_conflict text t h = rw (h, edit_conflict)

edit_conflict-idle : (text : Error) (t : State) → edit_conflict text t ≡ none → is_idle t ≡ true
unfolding edit_conflict
edit_conflict-idle text t h = ground arith

module _ (S : Storage) (R : Registry) where
  start_locked-accepted :
      (id : String) (cfg : Config.Pipeline) (s : Service S.St)
      → (start_locked S R id cfg s).0 ≡ accepted
      → (u : PipeUnit) × (o : Pipeline) × Registered id s u o × (is_idle o.state ≡ true)
  unfolding start_locked
  start_locked-accepted id cfg s h = elim (Option-cases (lookup id s.pipes)) [
    | inl e ↦ absurd (panicked-ne-accepted (rw (e, start_locked) at h))
    | inr e ↦
        let (o, at, t, _) =
          checked-accepted start_conflict e.0.p s _ (rw (e.1, start_locked) at h) in
        (e.0, o, record { unit = e.1; object = at }, start_conflict-idle o.state t)
  ]

  start_locked_idle :
      (id : String) (cfg : Config.Pipeline) (s : Service S.St) (u : PipeUnit) (o : Pipeline)
      → Registered id s u o
      → is_idle o.state ≡ true
      → start_locked S R id cfg s
        ≡ start_pipeline S R (new_unit (length s.objects) u.mu) (create_pipeline cfg s).1
  unfolding start_locked create_pipeline
  start_locked_idle id cfg s u o r i =
      rw (r.unit, start_locked, r.object, checked, idle-start_conflict o.state i)

  -- A `Start` that finds an idle pipeline, before it waits and after, starts a new one.
  pub start_idle :
      (wait : Service S.St → Service S.St) (id : String) (cfg : Config.Pipeline) (s : Service S.St)
      (v : PipeUnit) (o o' : Pipeline)
      → S.get id s.store ≡ ok cfg
      → pipeline_at (load_or_store S R id cfg s).0.p (load_or_store S R id cfg s).1 ≡ some o
      → is_idle o.state ≡ true
      → Registered id (wait (load_or_store S R id cfg s).1) v o'
      → is_idle o'.state ≡ true
      → start S R wait id s
        ≡ start_pipeline S R
            (new_unit (length (wait (load_or_store S R id cfg s).1).objects) v.mu)
            (create_pipeline cfg (wait (load_or_store S R id cfg s).1)).1
  unfolding start
  start_idle wait id cfg s v o o' g at i r i' = rw (
    g,
    start,
    at,
    checked,
    idle-start_conflict o.state i,
    start_locked_idle id cfg (wait (load_or_store S R id cfg s).1) v o' r i',
  )

  -- A `Start` that succeeds read a configuration from the storage and, when it had the lock, found
  -- under the id a pipeline that was created or stopped, whatever happened while it waited.
  pub start-accepted :
      (wait : Service S.St → Service S.St) (id : String) (s : Service S.St)
      → (start S R wait id s).0 ≡ accepted
      → (cfg : Config.Pipeline) × (u : PipeUnit) × (o : Pipeline) × (S.get id s.store ≡ ok cfg)
        × Registered id (wait (load_or_store S R id cfg s).1) u o
        × (is_idle o.state ≡ true)
  unfolding start
  start-accepted wait id s h = elim (Result-cases (S.get id s.store)) [
    | inl g ↦
        let (o, at, t, r) =
          checked-accepted start_conflict (load_or_store S R id g.0 s).0.p
            (load_or_store S R id g.0 s).1 _ (rw (g.1, start) at h) in
        let (u, o', reg, idle) =
          start_locked-accepted id g.0 (wait (load_or_store S R id g.0 s).1) r in
        (g.0, u, o', g.1, reg, idle)
    | inr g ↦ absurd (failed-ne-accepted _ (rw (g.1, start) at h))
  ]

  abbrev deleted : String → Service S.St → Service S.St
  deleted id s = record s { store = (S.delete id s.store).1; pipes = remove id s.pipes }

  delete_locked-accepted :
      (id : String) (u : PipeUnit) (s : Service S.St)
      → (delete_locked S R id u s).0 ≡ accepted
      → (o : Pipeline) × (pipeline_at u.p s ≡ some o)
        × (is_idle o.state ≡ true)
        × ((S.delete id s.store).0 ≡ none)
        × ((delete_locked S R id u s).1 ≡ deleted id s)
  unfolding delete_locked
  delete_locked-accepted id u s h =
      let text : Error = "only stopped pipelines can be deleted" in
      let (o, at, t, r) = checked-accepted (edit_conflict text) u.p s _ h in
      elim (Option-cases (S.delete id s.store).0) [
        | inl e ↦ (
          o,
          at,
          edit_conflict-idle text o.state t,
          e,
          rw (at, delete_locked, checked, t, e) refl,
        )
        | inr e ↦ absurd (failed-ne-accepted _ (rw e.1 at r))
      ]

  delete-passes :
      (wait : Service S.St → Service S.St) (id : String) (s : Service S.St)
      → (delete S R wait id s).0 ≡ accepted
      → (u : PipeUnit) × (lookup id s.pipes ≡ some u)
        × (delete S R wait id s ≡ delete_locked S R id u (wait s))
  unfolding delete
  delete-passes wait id s h = elim (Option-cases (lookup id s.pipes)) [
    | inl e ↦ absurd (failed-ne-accepted _ (rw (e, delete) at h))
    | inr e ↦
        let text : Error = "only stopped pipelines can be deleted" in
        let (o, at, t, r) =
          checked-accepted (edit_conflict text) e.0.p s (λ _. delete_locked S R id e.0 (wait s))
            (rw (e.1, delete) at h) in
        (e.0, e.1, rw (e.1, delete, at, checked, t) refl)
  ]

  -- A `Delete` that succeeds found, when it had the lock, the pipeline that it had loaded before it
  -- waited created or stopped. The storage has deleted the id, and is as it left it; the entry that the
  -- registry then has for the id, whichever unit that is, is removed and no other, and no pipeline is
  -- changed.
  pub delete-accepted :
      (wait : Service S.St → Service S.St) (id : String) (s : Service S.St)
      → (delete S R wait id s).0 ≡ accepted
      → (u : PipeUnit) × (o : Pipeline) × (lookup id s.pipes ≡ some u)
        × (pipeline_at u.p (wait s) ≡ some o)
        × (is_idle o.state ≡ true)
        × ((S.delete id (wait s).store).0 ≡ none)
        × ((k : String)
            → lookup k (delete S R wait id s).1.pipes
              ≡ (if id == k then none else lookup k (wait s).pipes))
        × ((delete S R wait id s).1.objects ≡ (wait s).objects)
        × ((delete S R wait id s).1.store ≡ (S.delete id (wait s).store).1)
  delete-accepted wait id s h =
      let (u, found, eq) = delete-passes wait id s h in
      let (o, at, idle, gone, after) = delete_locked-accepted id u (wait s) (rw eq at h) in
      (
        u,
        o,
        found,
        at,
        idle,
        gone,
        λ k. rw (eq, after) (lookup-remove id k (wait s).pipes),
        rw (eq, after) refl,
        rw (eq, after) refl,
      )
