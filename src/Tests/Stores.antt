-- ===== src/Tests/Stores.antt =====
-- Requests to the tables of pipeline/storage/postgresql.go.
use neptunus.Base.{
  ◌≡◌, refl, if◌then◌else◌, nat_beq, true, false, ==_iff, string_comparable, none, some, List, [],
  ◌∷◌, Result, ok, err, ◌⊎◌, inl, inr,
}
use neptunus.Core.Fields.{Error}
use neptunus.Config.{Plugin, PluginSet, end}
use neptunus.Pipeline.Postgres.{Json, Failures, Tables, config_to_stored, get, pipeline_get, ◌>>=◌}
use neptunus.Pipeline.Postgres.Encoded.{Documented}
use neptunus.Pipeline.Postgres.Store.{
  Request, adding, deleting, acquiring, releasing, Allowed, steady, execute, store,
}
use neptunus.Pipeline.Postgres.Store.Accepted.{Encodable, execute-accepted}
use neptunus.Tests.Builds.{config}

-- A decoder that makes an empty table of every table.
abbrev Doc : Type 0
Doc = Plugin ⊎ List PluginSet

abbrev read_table : Doc → Result Error Plugin
read_table (inl p) = ok end
read_table (inr s) = err "not a table"

abbrev read_sets : Doc → Result Error (List PluginSet)
read_sets (inl p) = err "not a list"
read_sets (inr s) = ok s

abbrev faithful : Json
faithful = record {
  Text = Doc;
  marshal_table = λ p. ok (inl p);
  marshal_sets = λ s. ok (inr s);
  unmarshal_table = read_table;
  unmarshal_sets = read_sets;
  empty_vars = inl end;
  empty_list = inr [];
  violation = "violation";
  by_id = λ key rows. rows;
}

table-read : (p : Plugin) (t : Doc) → faithful.marshal_table p ≡ ok t → read_table t ≡ ok end
table-read p (inl q) h = refl
table-read p (inr s) h = cc

sets-read : (s : List PluginSet) (t : Doc) → faithful.marshal_sets s ≡ ok t → read_sets t ≡ ok s
sets-read s (inl p) h = cc
sets-read s (inr r) h = cc

faithful-Documented : Documented faithful
faithful-Documented = record {
  table_read = λ p. end;
  sets_read = λ s. s;
  table = table-read;
  sets = sets-read;
  vars = refl;
  none_set = refl;
}

abbrev empty_tables : Tables faithful
empty_tables = record { pipelines = []; locks = [] }

-- The second call of the database fails.
abbrev broken : Failures
broken = record {
  error = λ n. if nat_beq n 1 then some "connection lost" else none;
  committed = false;
}

-- Only the answer of the commit is lost.
abbrev unanswered : Failures
unanswered = record {
  error = λ n. if nat_beq n 4 then some "connection lost" else none;
  committed = true;
}

-- A pipeline is added, added again, locked, deleted in vain, unlocked, deleted in vain again, deleted
-- with a commit that is not answered, and deleted in vain.
abbrev calls : List (Failures × Request)
calls =
    (steady, adding config)
    ∷ (steady, adding config)
    ∷ (steady, acquiring "one" "p")
    ∷ (steady, deleting "p")
    ∷ (steady, releasing "one" "p")
    ∷ (broken, deleting "p")
    ∷ (unanswered, deleting "p")
    ∷ (steady, deleting "p")
    ∷ []

absent : Allowed (adding config) (store faithful empty_tables)
unfolding get pipeline_get
absent = refl

encodable : Encodable faithful (adding config)
unfolding config_to_stored ◌>>=◌
encodable = ((λ e. let q = (==_iff "p" "").1 e in cc), _, refl)

execute-accepted_example : (execute faithful steady (adding config) empty_tables).0 ≡ none
execute-accepted_example =
    execute-accepted faithful faithful-Documented (adding config) empty_tables tt absent encodable
