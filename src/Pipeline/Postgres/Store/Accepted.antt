-- ===== src/Pipeline/Postgres/Store/Accepted.antt =====
-- pipeline/storage/postgresql.go: a request that the store allows succeeds, where the database and the
-- encoder do not fail.
use neptunus.Base.{
  ◌≡◌, ◌≢◌, refl, ap, ◌∙◌, sym, String, true, false, Option, none, some, List, [], ◌∷◌, ok, ◌==◌,
  ==_refl, ==_ne, string_comparable, arith, Bool-cases, inl, inr, ◌⊎◌,
}
use neptunus.Config
use neptunus.Pipeline.{PipeError}
use neptunus.Pipeline.Postgres.{
  Json, Lock, Stored, Row, Tables, config_to_stored, pipeline_check, pipeline_add, pipeline_remove,
  lock_check, insert_stored, editable, acquire, release, add, update, delete,
}
use neptunus.Pipeline.Postgres.Locks.{holds}
use neptunus.Pipeline.Postgres.Rows.{NoneTwice, live, check-remove}
use neptunus.Pipeline.Postgres.Encoded.{Documented, stored_to_config-config_to_stored}
use neptunus.Pipeline.Postgres.Store.{
  Request, adding, updating, deleting, acquiring, releasing, missing, Allowed, steady, execute,
  store, answer, get-pipeline_check,
}
use neptunus.Pipeline.Postgres.Store.Edits.{answer_found}

module _ (J : Json) where
  -- The configuration of a request has an id, and can be encoded.
  abbrev pub IsEncodable : Config.Pipeline → Type 0
  IsEncodable c = (c.settings.id ≢ "") × (p : Stored J) × (config_to_stored J c ≡ ok p)

  abbrev pub Encodable : Request → Type 0
  Encodable (adding c) = IsEncodable c
  Encodable (updating c) = IsEncodable c
  Encodable _ = Unit {0}

  lock_check-unheld :
      (id : String) (locks : List Lock)
      → ((own : String) → holds own id locks ≡ false)
      → lock_check J id locks ≡ []
  unfolding holds lock_check
  lock_check-unheld id [] h = refl
  lock_check-unheld id (l ∷ locks) h = ground (
    arith,
    lock_check-unheld id locks (λ own. ground (arith, h own)),
    h l.instance_name,
    ==_refl l.instance_name,
  )

  -- A row that is answered is there and not deleted.
  answered :
      (r : Option (Row J))
      → answer J (live J r) ≢ missing
      → (row : Row J) × (r ≡ some row) × (row.deleted ≡ false)
  answered none h = absurd (h refl)
  answered (some row) h = elim (Bool-cases row.deleted) [
    | inl gone ↦ absurd (h (rw gone refl))
    | inr there ↦ (row, refl, there)
  ]

  -- A row that is not answered is not there or deleted.
  unanswered :
      (r : Option (Row J))
      → answer J (live J r) ≡ missing
      → (r ≡ none) ⊎ ((row : Row J) × (r ≡ some row) × (row.deleted ≡ true))
  unanswered none h = inl refl
  unanswered (some row) h = elim (Bool-cases row.deleted) [
    | inl gone ↦ inr (row, refl, gone)
    | inr there ↦ absurd (answer_found J row.stored (rw there at h))
  ]

  editable-accepted :
      (id text : String) (db : Tables J) (rest : Option PipeError × Tables J)
      → NoneTwice J db.pipelines
      → Allowed (deleting id) (store J db)
      → editable J steady id text db rest ≡ rest
  unfolding editable
  editable-accepted id text db rest sound (idle, there) =
      let (row, found, kept) =
        answered (pipeline_check J id db.pipelines)
          (λ h. there (get-pipeline_check J id db sound ∙ h)) in
      rw (lock_check-unheld id db.locks idle, found, kept) refl

module _ (J : Json) (law : Documented J) where
  insert_stored-accepted :
      (c : Config.Pipeline) (rows : List (Row J)) (db : Tables J)
      → IsEncodable J c
      → pipeline_check J c.settings.id rows ≡ none
      → (insert_stored J steady c rows db).0 ≡ none
  unfolding insert_stored pipeline_add
  insert_stored-accepted c rows db (named, p, good) free =
      let q : p.settings.id ≡ c.settings.id =
        λ i. ((stored_to_config-config_to_stored J law c p good).1 i).id in
      let filled : (p.settings.id == "") ≡ false =
        ==_ne p.settings.id "" (λ e. named (sym q ∙ e)) in
      let free' : pipeline_check J p.settings.id rows ≡ none = rw q free in
      rw (good, insert_stored, filled, pipeline_add, free') refl

  -- From tables in which no id stands twice, a request that the store allows succeeds, where no call of
  -- the database fails and the configuration of the request has an id and can be encoded.
  pub execute-accepted :
      (q : Request) (db : Tables J)
      → NoneTwice J db.pipelines
      → Allowed q (store J db)
      → Encodable J q
      → (execute J steady q db).0 ≡ none
  unfolding add update delete acquire release
  execute-accepted (adding c) db sound absent good =
      elim (unanswered J (pipeline_check J c.settings.id db.pipelines)
        (sym (get-pipeline_check J c.settings.id db sound) ∙ absent)) [
          | inl free ↦ rw (add, free) (insert_stored-accepted c db.pipelines db good free)
          | inr (row, found, gone) ↦
              rw (add, found, gone)
                (insert_stored-accepted c (pipeline_remove J c.settings.id db.pipelines) db good (
                  check-remove J c.settings.id c.settings.id db.pipelines
                  ∙ rw (==_refl c.settings.id) refl))
        ]
  execute-accepted (updating c) db sound fine (named, p, good) =
      ap (λ r. r.0) (editable-accepted J c.settings.id _ db _ sound fine) ∙ rw good refl
  execute-accepted (deleting id) db sound fine good =
      ap (λ r. r.0) (editable-accepted J id _ db _ sound fine)
  execute-accepted (acquiring own id) db sound fine good = refl
  execute-accepted (releasing own id) db sound fine good = refl
