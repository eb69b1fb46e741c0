-- ===== src/Pipeline/Postgres/Store/Changes.antt =====
-- pipeline/storage/postgresql.go: each method does to the tables what it does to the store that they
-- stand for, or fails and has done nothing, or
-- all of it where only the answer was lost.
use neptunus.Base.{
  ◌≡◌, refl, ◌∙◌, sym, String, false, Option, none, some, List, [], ◌∷◌, ◌++◌, Result, ok,
  if◌then◌else◌, ◌==◌, ==_iff, ==_refl, string_comparable, arith, Bool-cases, Option-cases,
  Result-cases, inl, inr, ◌⊎◌, Bool, true,
}
use mathlib.Core.Path.{fun_ext}
use neptunus.Core.Fields.{Error}
use neptunus.Config
use neptunus.Pipeline.{PipeError}
use neptunus.Pipeline.Postgres.{
  Json, Failures, Stored, Row, Tables, call, commit, config_to_stored, pipeline_check,
  pipeline_remove, pipeline_add, insert_stored, get, add,
}
use neptunus.Pipeline.Postgres.Rows.{
  NoneTwice, live, or_row, check-remove, check-append, remove-NoneTwice, append-NoneTwice,
}
use neptunus.Pipeline.Postgres.Encoded.{Documented, kept, stored_to_config-config_to_stored}
use neptunus.Pipeline.Postgres.Store.{
  Request, adding, missing, Allowed, effect, steady, store, answer, get-pipeline_check,
}

module _ (J : Json) where
  -- A request on the store, by what a method returned: with an error it has done nothing, or all.
  unfoldable pub Judged :
      (Config.Pipeline → Config.Pipeline)
      → Request
      → Tables J
      → Option PipeError × Tables J
      → Type 0
  Judged kept q db (none, db') =
      Allowed q (store J db)
      × (store J db' ≡ effect kept q (store J db))
      × NoneTwice J db'.pipelines
  Judged kept q db (some e, db') =
      (db' ≡ db)
      ⊎ (Allowed q (store J db)
          × (store J db' ≡ effect kept q (store J db))
          × NoneTwice J db'.pipelines)

  module _ (kept : Config.Pipeline → Config.Pipeline) where
    pub Judged-refused :
        (q : Request) (e : PipeError) (db : Tables J) → Judged kept q db (some e, db)
    unfolding Judged
    Judged-refused q e db = inl refl

    -- The end of a transaction.
    pub Judged-commit :
        (q : Request) (f : Option Error) (committed : Bool) (db db' : Tables J)
        → Allowed q (store J db)
        → store J db' ≡ effect kept q (store J db)
        → NoneTwice J db'.pipelines
        → Judged kept q db (commit J f committed db db')
    unfolding Judged
    Judged-commit q none committed db db' a h sound = (a, h, sound)
    Judged-commit q (some e) true db db' a h sound = inr (a, h, sound)
    Judged-commit q (some e) false db db' a h sound = inl refl

    pub Judged-call :
        (q : Request) (f : Option Error) (db : Tables J) (rest : Option PipeError × Tables J)
        → Judged kept q db rest
        → Judged kept q db (call J f db rest)
    unfolding Judged
    Judged-call q none db rest h = h
    Judged-call q (some e) db rest h = inl refl

  -- New rows answer as the store's change says, if the statements find the right rows.
  pub restored :
      (db : Tables J) (rows : List (Row J)) (id : String) (new : Result PipeError Config.Pipeline)
      → NoneTwice J db.pipelines
      → NoneTwice J rows
      → answer J (live J (pipeline_check J id rows)) ≡ new
      → ((asked : String)
          → (id == asked) ≡ false
          → pipeline_check J asked rows ≡ pipeline_check J asked db.pipelines)
      → store J (record db { pipelines = rows }) ≡ record (store J db) {
        configs = λ asked. if id == asked then new else get J steady asked db;
      }
  restored db rows id new sound sound' own others =
      λ i. record (store J db) { configs = fun_ext (λ asked. answers asked) i }
    where
      answers :
          (asked : String)
          → get J steady asked (record db { pipelines = rows })
            ≡ (if id == asked then new else get J steady asked db)
      answers asked = elim (Bool-cases (id == asked)) [
        | inl same ↦
            let p : id ≡ asked = (==_iff id asked).0 same in
            rw same
              (get-pipeline_check J asked (record db { pipelines = rows }) sound' ∙ rw (sym p) own)
        | inr other ↦ rw other (
            get-pipeline_check J asked (record db { pipelines = rows }) sound'
            ∙ rw (others asked other) (sym (get-pipeline_check J asked db sound)))
      ]

module _ (J : Json) (law : Documented J) where
  -- What is answered for a row into which a configuration was encoded.
  pub answer-encoded :
      (c : Config.Pipeline) (p : Stored J)
      → config_to_stored J c ≡ ok p
      → answer J (some p) ≡ ok (kept law c)
  answer-encoded c p h = rw ((stored_to_config-config_to_stored J law c p h).0, answer) refl

  or_none : (r : Option (Row J)) → or_row J r none ≡ r
  or_none none = refl
  or_none (some r) = refl

  insert_stored-Judged :
      (fails : Failures) (c : Config.Pipeline) (rows : List (Row J)) (db : Tables J)
      → NoneTwice J db.pipelines
      → NoneTwice J rows
      → get J steady c.settings.id db ≡ missing
      → pipeline_check J c.settings.id rows ≡ none
      → ((asked : String)
          → (c.settings.id == asked) ≡ false
          → pipeline_check J asked rows ≡ pipeline_check J asked db.pipelines)
      → Judged J (kept law) (adding c) db (insert_stored J fails c rows db)
  unfolding insert_stored pipeline_add
  insert_stored-Judged fails c rows db sound sound' absent free others =
      elim (Result-cases (config_to_stored J c)) [
        | inr (e, bad) ↦ rw (bad, insert_stored) (Judged-refused J _ _ _ _)
        | inl (p, good) ↦
            let same = (stored_to_config-config_to_stored J law c p good).1 in
            let named : p.settings.id ≡ c.settings.id = λ i. (same i).id in
            let free' : pipeline_check J p.settings.id rows ≡ none = rw (named) free in
            let new : Row J = record { stored = p; deleted = false } in
            let unique = append-NoneTwice J new rows free' sound' in
            let found : pipeline_check J c.settings.id (rows ++ new ∷ []) ≡ some new =
              ground (
                arith,
                check-append J new c.settings.id rows,
                ==_iff p.settings.id c.settings.id,
              ) in
            let apart : (asked : String)
                → (c.settings.id == asked) ≡ false
                → pipeline_check J asked (rows ++ new ∷ []) ≡ pipeline_check J asked db.pipelines =
              λ asked ne. ground (
                arith,
                check-append J new asked rows,
                others asked ne,
                named,
                or_none (pipeline_check J asked db.pipelines),
              ) in
            rw (good, insert_stored)
              (Judged-call J (kept law) (adding c) (fails.error 3) db _
                (elim (Bool-cases (p.settings.id == "")) [
                  | inl empty ↦ rw (empty, pipeline_add) (Judged-refused J _ _ _ _)
                  | inr filled ↦
                      rw (filled, pipeline_add, free')
                        (Judged-commit J (kept law) (adding c) (fails.error 4) fails.committed db _
                          absent
                          (restored J db (rows ++ new ∷ []) c.settings.id (ok (kept law c)) sound
                            unique (rw found (answer-encoded c p good)) apart)
                          unique)
                ]))
      ]

  pub add-Judged :
      (fails : Failures) (c : Config.Pipeline) (db : Tables J)
      → NoneTwice J db.pipelines
      → Judged J (kept law) (adding c) db (add J fails c db)
  unfolding add
  add-Judged fails c db sound = Judged-call J (kept law) (adding c) (fails.error 0) db _ (
      Judged-call J (kept law) (adding c) (fails.error 1) db _
        (elim (Option-cases (pipeline_check J c.settings.id db.pipelines)) [
          | inl free ↦ rw free (
              insert_stored-Judged fails c db.pipelines db sound sound
                (get-pipeline_check J c.settings.id db sound ∙ rw free refl) free
                (λ asked ne. refl))
          | inr (r, there) ↦ elim (Bool-cases r.deleted) [
            | inr kept' ↦ rw (there, kept') (Judged-refused J _ _ _ _)
            | inl gone ↦
                rw (there, gone)
                  (Judged-call J (kept law) (adding c) (fails.error 2) db _ (
                    insert_stored-Judged fails c (pipeline_remove J c.settings.id db.pipelines) db
                      sound (remove-NoneTwice J c.settings.id db.pipelines sound)
                      (get-pipeline_check J c.settings.id db sound ∙ rw (there, live, gone) refl)
                      (check-remove J c.settings.id c.settings.id db.pipelines
                        ∙ rw (==_refl c.settings.id) refl)
                      (λ asked ne. check-remove J c.settings.id asked db.pipelines ∙ rw ne refl)))
          ]
        ]))
