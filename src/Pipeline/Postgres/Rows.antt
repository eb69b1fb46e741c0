-- ===== src/Pipeline/Postgres/Rows.antt =====
-- pipeline/storage/postgresql.go: the row that a statement finds, behind each of the other statements.
use neptunus.Base.{
  String, ◌≡◌, refl, true, Option, none, some, List, [], ◌∷◌, ◌++◌, if◌then◌else◌, ◌==◌, ==_iff,
  string_comparable, arith,
}
use neptunus.Pipeline.Postgres.Statements.{
  Json, Stored, Row, id_of, pipeline_check, pipeline_get, pipeline_remove, pipeline_delete,
  pipeline_update,
}

module _ (J : Json) where
  -- No two rows have one id.
  abbrev pub NoneTwice : List (Row J) → Type 0
  NoneTwice [] = Unit {0}
  NoneTwice (r ∷ rows) = (pipeline_check J (id_of J r) rows ≡ none) × NoneTwice rows

  -- The configuration of a row that is not deleted.
  abbrev pub live : Option (Row J) → Option (Stored J)
  live none = none
  live (some r) = if r.deleted then none else some r.stored

  abbrev pub marked : Option (Row J) → Option (Row J)
  marked none = none
  marked (some r) = some (record r { deleted = true })

  abbrev pub written : Stored J → Option (Row J) → Option (Row J)
  written p none = none
  written p (some r) = some (record r { stored = p })

  abbrev pub or_row : Option (Row J) → Option (Row J) → Option (Row J)
  or_row (some r) s = some r
  or_row none s = s

  get_absent :
      (id : String) (rows : List (Row J))
      → pipeline_check J id rows ≡ none
      → pipeline_get J id rows ≡ none
  unfolding pipeline_check pipeline_get
  get_absent id [] h = refl
  get_absent id (r ∷ rows) h = ground (arith, get_absent id rows)

  pub pipeline_get-pipeline_check :
      (id : String) (rows : List (Row J))
      → NoneTwice rows
      → pipeline_get J id rows ≡ live (pipeline_check J id rows)
  unfolding pipeline_check pipeline_get
  pipeline_get-pipeline_check id [] h = refl
  pipeline_get-pipeline_check id (r ∷ rows) h = ground (
    arith,
    pipeline_get-pipeline_check id rows h.1,
    get_absent id rows,
    h.0,
    ==_iff (id_of J r) id,
  )

  pub check-remove :
      (id asked : String) (rows : List (Row J))
      → pipeline_check J asked (pipeline_remove J id rows)
        ≡ (if id == asked then none else pipeline_check J asked rows)
  unfolding pipeline_check pipeline_remove
  check-remove id asked [] = ground arith
  check-remove id asked (r ∷ rows) = ground (
    arith,
    check-remove id asked rows,
    ==_iff (id_of J r) id,
    ==_iff (id_of J r) asked,
    ==_iff id asked,
  )

  pub check-delete :
      (id asked : String) (rows : List (Row J))
      → pipeline_check J asked (pipeline_delete J id rows) ≡ (
          if id == asked then marked (pipeline_check J asked rows) else pipeline_check J asked rows)
  unfolding pipeline_check pipeline_delete
  check-delete id asked [] = ground arith
  check-delete id asked (r ∷ rows) = ground (
    arith,
    check-delete id asked rows,
    ==_iff (id_of J r) id,
    ==_iff (id_of J r) asked,
    ==_iff id asked,
  )

  pub check-update :
      (p : Stored J) (asked : String) (rows : List (Row J))
      → pipeline_check J asked (pipeline_update J p rows) ≡ (
          if p.settings.id == asked
          then written p (pipeline_check J asked rows)
          else pipeline_check J asked rows)
  unfolding pipeline_check pipeline_update
  check-update p asked [] = ground arith
  check-update p asked (r ∷ rows) = ground (
    arith,
    check-update p asked rows,
    ==_iff (id_of J r) p.settings.id,
    ==_iff (id_of J r) asked,
    ==_iff p.settings.id asked,
  )

  pub check-append :
      (s : Row J) (asked : String) (rows : List (Row J))
      → pipeline_check J asked (rows ++ s ∷ [])
        ≡ or_row (pipeline_check J asked rows) (if id_of J s == asked then some s else none)
  unfolding pipeline_check
  check-append s asked [] = refl
  check-append s asked (r ∷ rows) = ground (arith, check-append s asked rows)

  pub remove-NoneTwice :
      (id : String) (rows : List (Row J)) → NoneTwice rows → NoneTwice (pipeline_remove J id rows)
  unfolding pipeline_remove
  remove-NoneTwice id [] h = h
  remove-NoneTwice id (r ∷ rows) h =
      ground (arith, remove-NoneTwice id rows h.1, check-remove id (id_of J r) rows, h.0)

  pub delete-NoneTwice :
      (id : String) (rows : List (Row J)) → NoneTwice rows → NoneTwice (pipeline_delete J id rows)
  unfolding pipeline_delete
  delete-NoneTwice id [] h = h
  delete-NoneTwice id (r ∷ rows) h =
      ground (arith, delete-NoneTwice id rows h.1, check-delete id (id_of J r) rows, h.0)

  pub update-NoneTwice :
      (p : Stored J) (rows : List (Row J)) → NoneTwice rows → NoneTwice (pipeline_update J p rows)
  unfolding pipeline_update
  update-NoneTwice p [] h = h
  update-NoneTwice p (r ∷ rows) h = ground (
    arith,
    update-NoneTwice p rows h.1,
    check-update p (id_of J r) rows,
    h.0,
    ==_iff (id_of J r) p.settings.id,
  )

  pub append-NoneTwice :
      (s : Row J) (rows : List (Row J))
      → pipeline_check J (id_of J s) rows ≡ none
      → NoneTwice rows
      → NoneTwice (rows ++ s ∷ [])
  unfolding pipeline_check
  append-NoneTwice s [] fresh h = (refl, tt)
  append-NoneTwice s (r ∷ rows) fresh h = ground (
    arith,
    append-NoneTwice s rows,
    check-append s (id_of J r) rows,
    h.0,
    h.1,
    fresh,
    ==_iff (id_of J r) (id_of J s),
    ==_iff (id_of J s) (id_of J r),
  )
