-- ===== src/Pipeline/Postgres/Store/Edits.antt =====
-- pipeline/storage/postgresql.go: `Update` and `Delete`, and the locks, on the store that the tables
-- stand for.
use neptunus.Base.{
  ◌≡◌, ◌≢◌, refl, ◌∙◌, sym, String, true, false, Option, some, List, [], ◌∷◌, ok, ◌==◌, ==_refl,
  string_comparable, arith, Bool-cases, Option-cases, Result-cases, inl, inr, ◌⊎◌,
}
use neptunus.Config
use neptunus.Pipeline.{PipeError}
use neptunus.Pipeline.Postgres.{
  Json, Failures, Lock, Stored, Row, Tables, config_to_stored, stored_to_config, pipeline_check,
  pipeline_delete, pipeline_update, lock_check, editable, get, update, delete,
}
use neptunus.Pipeline.Postgres.Locks.{holds}
use neptunus.Pipeline.Postgres.Rows.{
  NoneTwice, live, check-delete, check-update, delete-NoneTwice, update-NoneTwice,
}
use neptunus.Pipeline.Postgres.Encoded.{Documented, kept, stored_to_config-config_to_stored}
use neptunus.Pipeline.Postgres.Store.{
  Request, updating, deleting, missing, steady, answer, get-pipeline_check,
}
use neptunus.Pipeline.Postgres.Store.Changes.{
  Judged, Judged-call, Judged-refused, Judged-commit, restored, answer-encoded,
}

List-cases : {A : Type 0} (ls : List A) → (ls ≡ []) ⊎ ((l : A) × (more : List A) × (ls ≡ l ∷ more))
List-cases [] = inl refl
List-cases (l ∷ more) = inr (l, more, refl)

module _ (J : Json) where
  -- Where the statement finds no lock of a pipeline, no instance holds one.
  lock_check-nobody :
      (own id : String) (locks : List Lock)
      → lock_check J id locks ≡ []
      → holds own id locks ≡ false
  unfolding holds lock_check
  lock_check-nobody own id [] h = refl
  lock_check-nobody own id (l ∷ locks) h = elim (Bool-cases (l.pipeline == id)) [
    | inl same ↦ (let q = rw same at h in cc)
    | inr other ↦ ground (arith, lock_check-nobody own id locks (let q = rw other at h in q), other)
  ]

  pub answer_found : (p : Stored J) → answer J (some p) ≢ missing
  answer_found p h = elim (Result-cases (stored_to_config J p)) [
    | inl (c, good) ↦ (let q = rw (good, answer) at h in cc)
    | inr (e, bad) ↦ (let q = rw (bad, answer) at h in cc)
  ]

  editable-Judged :
      (keeps : Config.Pipeline → Config.Pipeline) (q : Request) (fails : Failures)
      (id text : String) (db : Tables J) (rest : Option PipeError × Tables J)
      → NoneTwice J db.pipelines
      → (((own : String) → holds own id db.locks ≡ false)
          → get J steady id db ≢ missing
          → (r : Row J) → pipeline_check J id db.pipelines ≡ some r
          → r.deleted ≡ false
          → Judged J keeps q db rest)
      → Judged J keeps q db (editable J fails id text db rest)
  unfolding editable
  editable-Judged keeps q fails id text db rest sound h =
      Judged-call J keeps q (fails.error 0) db _ (
        Judged-call J keeps q (fails.error 1) db _ (elim (List-cases (lock_check J id db.locks)) [
          | inr (l, more, busy) ↦ rw busy (Judged-refused J _ _ _ _)
          | inl idle ↦ rw idle (
              Judged-call J keeps q (fails.error 2) db _
                (elim (Option-cases (pipeline_check J id db.pipelines)) [
                  | inl absent ↦ rw absent (Judged-refused J _ _ _ _)
                  | inr (r, there) ↦ elim (Bool-cases r.deleted) [
                    | inl gone ↦ rw (there, gone) (Judged-refused J _ _ _ _)
                    | inr kept' ↦
                        rw (there, kept')
                          (h (λ own. lock_check-nobody own id db.locks idle) (read r there kept') r
                            there kept')
                  ]
                ]))
        ]))
    where
      read :
          (r : Row J)
          → pipeline_check J id db.pipelines ≡ some r
          → r.deleted ≡ false
          → get J steady id db ≢ missing
      read r there kept' e =
          answer_found r.stored
            (sym (get-pipeline_check J id db sound ∙ rw (there, live, kept') refl) ∙ e)

module _ (J : Json) (law : Documented J) where
  pub update-Judged :
      (fails : Failures) (c : Config.Pipeline) (db : Tables J)
      → NoneTwice J db.pipelines
      → Judged J (kept law) (updating c) db (update J fails c db)
  unfolding update
  update-Judged fails c db sound =
      editable-Judged J (kept law) (updating c) fails c.settings.id _ db _ sound
        λ idle there r found kept'. elim (Result-cases (config_to_stored J c)) [
          | inr (e, bad) ↦ rw bad (Judged-refused J _ _ _ _)
          | inl (p, good) ↦
              let same = (stored_to_config-config_to_stored J law c p good).1 in
              let named : p.settings.id ≡ c.settings.id = λ i. (same i).id in
              let rows = pipeline_update J p db.pipelines in
              let unique = update-NoneTwice J p db.pipelines sound in
              let own : pipeline_check J c.settings.id rows ≡ some (record r { stored = p }) =
                check-update J p c.settings.id db.pipelines
                ∙ rw (named, ==_refl c.settings.id, found) refl in
              let apart : (asked : String)
                  → (c.settings.id == asked) ≡ false
                  → pipeline_check J asked rows ≡ pipeline_check J asked db.pipelines =
                λ asked ne. check-update J p asked db.pipelines ∙ rw (named, ne) refl in
              rw good (
                Judged-call J (kept law) (updating c) (fails.error 3) db _ (
                  Judged-commit J (kept law) (updating c) (fails.error 4) fails.committed db _
                    (idle, there)
                    (restored J db rows c.settings.id (ok (kept law c)) sound unique
                      (rw (own, live, kept') (answer-encoded J law c p good)) apart)
                    unique))
        ]

  pub delete-Judged :
      (fails : Failures) (id : String) (db : Tables J)
      → NoneTwice J db.pipelines
      → Judged J (kept law) (deleting id) db (delete J fails id db)
  unfolding delete
  delete-Judged fails id db sound =
      editable-Judged J (kept law) (deleting id) fails id _ db _ sound λ idle there r found kept'.
        let rows = pipeline_delete J id db.pipelines in
        let unique = delete-NoneTwice J id db.pipelines sound in
        let own : pipeline_check J id rows ≡ some (record r { deleted = true }) =
          check-delete J id id db.pipelines ∙ rw (==_refl id, found) refl in
        let apart : (asked : String)
            → (id == asked) ≡ false
            → pipeline_check J asked rows ≡ pipeline_check J asked db.pipelines =
          λ asked ne. check-delete J id asked db.pipelines ∙ rw ne refl in
        Judged-call J (kept law) (deleting id) (fails.error 3) db _ (
          Judged-commit J (kept law) (deleting id) (fails.error 4) fails.committed db _
            (idle, there) (restored J db rows id missing sound unique (rw own refl) apart) unique)
