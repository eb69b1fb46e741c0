-- ===== src/Tests/Tables.antt =====
-- Locks in the tables of pipeline/storage/postgresql.go.
use neptunus.Base.{◌≡◌, ◌≢◌, refl, String, true, false, none, [], ◌∷◌, ok, string_comparable}
use neptunus.Config.{end}
use neptunus.Pipeline.Postgres.{Json, Failures, Tables, update, delete}
use neptunus.Pipeline.Postgres.Locks.{holds, held-refused}
use neptunus.Tests.Builds.{config}

-- An encoder that keeps nothing.
abbrev forgetful : Json
forgetful = record {
  Text = String;
  marshal_table = λ p. ok "";
  marshal_sets = λ s. ok "";
  unmarshal_table = λ t. ok end;
  unmarshal_sets = λ t. ok [];
  empty_vars = "";
  empty_list = "";
  violation = "violation";
  by_id = λ key rows. rows;
}

abbrev sound : Failures
sound = record { error = λ n. none; committed = false }

-- The first instance holds the lock of the pipeline "p".
abbrev locked : Tables forgetful
locked = record { pipelines = []; locks = record { instance_name = "first"; pipeline = "p" } ∷ [] }

locked-holds : holds "first" "p" locked.locks ≡ true
unfolding holds
locked-holds = refl

held-refused_example :
    ((update forgetful sound config locked).0 ≢ none)
    × ((update forgetful sound config locked).1 ≡ locked)
    × ((delete forgetful sound "p" locked).0 ≢ none)
    × ((delete forgetful sound "p" locked).1 ≡ locked)
held-refused_example = held-refused forgetful sound "first" config locked locked-holds

abbrev second : String
second = "second"
