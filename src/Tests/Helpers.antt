-- ===== src/Tests/Helpers.antt =====
-- The helpers of plugins: plugins/common/, plugins/filters/glob/glob.go.
use neptunus.Base.{
  ℕ, suc, zero, ◌≡◌, ◌↔◌, refl, String, true, false, Option, none, some, List, [], ◌∷◌, ◌++◌,
  lookup, ◌==◌, string_comparable, nat_comparable, replicate, All,
}
use neptunus.Base.Int.{pos}
use neptunus.Core.Fields.{Error}
use neptunus.Common.Batcher
use neptunus.Common.Batcher.{Signal, event, closed, tick, received, concat, left_over, run-keeps}
use neptunus.Common.SharedStorage.{SharedStorage, Shares, join_all, leave_all, lifetime}
use neptunus.Common.Retryer.{do_retries, IsOutcome, do_retries_bounded}
use neptunus.Filters.Glob.{Glob, match, match_lem, RkMatches, LabelMatches, FieldMatches}
use neptunus.Tests.Events.{text_body, message}

abbrev signals : List (Signal ℕ)
signals = event 1 ∷ event 2 ∷ event 3 ∷ tick ∷ event 4 ∷ closed ∷ []

run-keeps_example :
    concat (Batcher.run 2 [] signals).0 ++ left_over (Batcher.run 2 [] signals).1
    ≡ 1 ∷ 2 ∷ 3 ∷ 4 ∷ []
run-keeps_example = run-keeps 2 [] signals

abbrev empty_storage : SharedStorage ℕ String
empty_storage = record { objects = []; members = [] }

empty-Shares : Shares "db" 0 4 empty_storage
unfolding lookup
empty-Shares = (refl, refl)

lifetime_example :
    ((join_all (λ c. true) "db" (4 ∷ 5 ∷ 6 ∷ []) empty_storage).0 ≡ replicate 3 4)
    × ((leave_all "db" 3 (join_all (λ c. true) "db" (4 ∷ 5 ∷ 6 ∷ []) empty_storage).1).0
        ≡ false ∷ false ∷ true ∷ [])
    × Shares "db" 0 4
        (leave_all "db" 3 (join_all (λ c. true) "db" (4 ∷ 5 ∷ 6 ∷ []) empty_storage).1).1
lifetime_example = lifetime (λ c. true) "db" 4 (5 ∷ 6 ∷ []) empty_storage empty-Shares

-- Two calls fail, and the third succeeds.
abbrev flaky : ℕ → Option Error
flaky zero = some "first"
flaky (suc zero) = some "second"
flaky _ = none

do_retries_bounded_example :
    (r : Option Error) × (last : ℕ) × (do_retries flaky (pos 2) 2 0 1 ≡ some (r, suc last))
    × IsOutcome flaky 2 0 r last
do_retries_bounded_example = do_retries_bounded flaky 1

-- Patterns that match the text that they are.
abbrev globs : Glob text_body (λ v. some v) ◌==◌
globs = record {
  rk = some ("in" ∷ "out" ∷ []);
  fields = [];
  labels = ("host", "h1" ∷ []) ∷ [];
  no_globs = false;
}

match_lem_example : (match text_body (λ v. some v) ◌==◌ globs message ≡ true) ↔ (
    RkMatches text_body (λ v. some v) ◌==◌ globs.rk "in"
    × All (LabelMatches text_body (λ v. some v) ◌==◌ message) globs.labels
    × All (FieldMatches text_body (λ v. some v) ◌==◌ message) globs.fields)
match_lem_example = match_lem text_body (λ v. some v) ◌==◌ globs message refl
