-- ===== src/Pipeline/Postgres/Locks.antt =====
-- pipeline/storage/postgresql.go: what locks keep from being done.
use neptunus.Base.{
  ◌≡◌, ◌≢◌, refl, String, Bool, true, false, ◌&&◌, ◌||◌, Option, none, List, [], ◌∷◌, ◌==◌, ==_iff,
  string_comparable, arith, if◌then◌else◌, Bool-cases, inl, inr, Option-cases,
}
use neptunus.Config
use neptunus.Pipeline.{PipeError}
use neptunus.Pipeline.Postgres.{
  Json, Failures, Lock, Tables, lock_check, lock_acquire, lock_release, acquire, release, update,
  delete, editable,
}

-- An instance holds the lock of a pipeline.
unfoldable pub holds : String → String → List Lock → Bool
holds own id [] = false
holds own id (l ∷ locks) = (l.instance_name == own && l.pipeline == id) || holds own id locks

List-some : (ls : List Lock) → ls ≢ [] → (l : Lock) × (more : List Lock) × (ls ≡ l ∷ more)
List-some [] h = absurd (h refl)
List-some (l ∷ more) h = (l, more, refl)

module _ (J : Json) where
  pub holds-lock_acquire :
      (own id other asked : String) (locks : List Lock)
      → holds other asked (lock_acquire J (record { instance_name = own; pipeline = id }) locks)
        ≡ ((own == other && id == asked) || holds other asked locks)
  unfolding holds lock_acquire
  holds-lock_acquire own id other asked [] = refl
  holds-lock_acquire own id other asked (l ∷ locks) = ground (
    arith,
    holds-lock_acquire own id other asked locks,
    ==_iff l.instance_name own,
    ==_iff l.pipeline id,
    ==_iff l.instance_name other,
    ==_iff own other,
    ==_iff l.pipeline asked,
    ==_iff id asked,
  )

  pub holds-lock_release :
      (own id other asked : String) (locks : List Lock)
      → holds other asked (lock_release J (record { instance_name = own; pipeline = id }) locks)
        ≡ (if own == other && id == asked then false else holds other asked locks)
  unfolding holds lock_release
  holds-lock_release own id other asked [] = ground arith
  holds-lock_release own id other asked (l ∷ locks) = ground (
    arith,
    holds-lock_release own id other asked locks,
    ==_iff l.instance_name own,
    ==_iff l.pipeline id,
    ==_iff l.instance_name other,
    ==_iff own other,
    ==_iff l.pipeline asked,
    ==_iff id asked,
  )

  pub lock_check-holds :
      (own id : String) (locks : List Lock) → holds own id locks ≡ true → lock_check J id locks ≢ []
  unfolding holds lock_check
  lock_check-holds own id [] h e = cc
  lock_check-holds own id (l ∷ locks) h e = elim (Bool-cases (l.pipeline == id)) [
    | inl same ↦ (let q = rw same at e in cc)
    | inr other ↦
        lock_check-holds own id locks (ground (arith, h, other)) (let q = rw other at e in q)
  ]

  abbrev Refused : Tables J → Option PipeError × Tables J → Type 0
  Refused db r = (r.0 ≢ none) × (r.1 ≡ db)

  editable-held :
      (fails : Failures) (own id text : String) (db : Tables J) (rest : Option PipeError × Tables J)
      → holds own id db.locks ≡ true
      → Refused db (editable J fails id text db rest)
  unfolding editable
  editable-held fails own id text db rest h = elim (Option-cases (fails.error 0)) [
    | inr broken ↦ rw broken.1 ((λ q. cc), refl)
    | inl begun ↦ elim (Option-cases (fails.error 1)) [
      | inr broken ↦ rw (begun, broken.1) ((λ q. cc), refl)
      | inl read ↦
          let (l, more, e) =
            List-some (lock_check J id db.locks) (lock_check-holds own id db.locks h) in
          rw (begun, read, e) ((λ q. cc), refl)
    ]
  ]

  -- While any instance holds the lock of a pipeline, `Update` and `Delete` of it report an error,
  -- whichever calls of the database fail, and change nothing.
  pub held-refused :
      (fails : Failures) (own : String) (cfg : Config.Pipeline) (db : Tables J)
      → holds own cfg.settings.id db.locks ≡ true
      → ((update J fails cfg db).0 ≢ none)
        × ((update J fails cfg db).1 ≡ db)
        × ((delete J fails cfg.settings.id db).0 ≢ none)
        × ((delete J fails cfg.settings.id db).1 ≡ db)
  unfolding update delete
  held-refused fails own cfg db h =
      let u = editable-held fails own cfg.settings.id _ db _ h in
      let d = editable-held fails own cfg.settings.id _ db _ h in (u.0, u.1, d.0, d.1)

  -- `Acquire` and `Release` by one instance fail only if the database does. They change whether this
  -- instance holds the lock of this pipeline, and nothing else; that another instance holds it does
  -- not keep `Acquire` from succeeding.
  acquire-release :
      (fails : Failures) (own id other asked : String) (db : Tables J)
      → fails.error 0 ≡ none
      → ((acquire J own fails id db).0 ≡ none)
        × (holds other asked (acquire J own fails id db).1.locks
            ≡ ((own == other && id == asked) || holds other asked db.locks))
        × ((release J own fails id db).0 ≡ none)
        × (holds other asked (release J own fails id db).1.locks
            ≡ (if own == other && id == asked then false else holds other asked db.locks))
        × ((acquire J own fails id db).1.pipelines ≡ db.pipelines)
        × ((release J own fails id db).1.pipelines ≡ db.pipelines)
  unfolding acquire release
  acquire-release fails own id other asked db f = rw f (
    refl,
    holds-lock_acquire own id other asked db.locks,
    refl,
    holds-lock_release own id other asked db.locks,
    refl,
    refl,
  )
