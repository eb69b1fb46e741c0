-- ===== src/Pipeline/Postgres/Store/Refinement.antt =====
-- pipeline/storage/postgresql.go: any sequence of requests behaves as the store of configurations and
-- locks.
use neptunus.Base.{◌≡◌, ◌⊎◌, Option, none, some, List, [], ◌∷◌, string_comparable}
use neptunus.Config
use neptunus.Pipeline.{PipeError}
use neptunus.Pipeline.Postgres.{Json, Failures, Tables}
use neptunus.Pipeline.Postgres.Encoded.{kept}
use neptunus.Pipeline.Postgres.Store.{Store, Request, Allowed, effect, execute}

-- The outcomes of requests are possible for a store, and lead to another: a request that is reported
-- to fail has done nothing, or all that it does when it succeeds.
abbrev pub Follows :
    (Config.Pipeline → Config.Pipeline)
    → List Request
    → List (Option PipeError)
    → Store
    → Store
    → Type 0
Follows kept [] [] s t = t ≡ s
Follows kept (q ∷ qs) (none ∷ outcomes) s t =
    Allowed q s × Follows kept qs outcomes (effect kept q s) t
Follows kept (q ∷ qs) (some e ∷ outcomes) s t =
    Follows kept qs outcomes s t ⊎ (Allowed q s × Follows kept qs outcomes (effect kept q s) t)
Follows kept _ _ s t = ⊥

module _ (J : Json) where
  -- Requests one after the other, each with the failures of its calls of the database.
  abbrev pub execute_all : List (Failures × Request) → Tables J → List (Option PipeError) × Tables J
  execute_all [] db = ([], db)
  execute_all ((fails, q) ∷ calls) db =
      let (outcome, db') = execute J fails q db in
      let (outcomes, end) = execute_all calls db' in (outcome ∷ outcomes, end)

  abbrev pub requests : List (Failures × Request) → List Request
  requests [] = []
  requests ((fails, q) ∷ calls) = q ∷ requests calls
