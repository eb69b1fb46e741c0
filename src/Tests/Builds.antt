-- ===== src/Tests/Builds.antt =====
-- The making of plugins: pipeline/pipeline.go.
use Prim.Native.String.{◌++◌ as concat}
use neptunus.Base.{
  ◌≡◌, refl, String, true, false, none, some, [], ◌∷◌, ok, ◌==◌, string_comparable, if◌then◌else◌,
  nat_beq, Distinct, contains,
}
use neptunus.Base.Int.{pos}
use neptunus.Config
use neptunus.Config.{Plugin, end, field, str, table}
use neptunus.Assembly.{Registry, Aliases, PlugSet, ◌>>=◌, pass, lifted, nested}
use neptunus.Assembly.Stages.{build_error, Assembled, configure}
use neptunus.Assembly.Whole.{part_aliases, configure-Distinct}

abbrev pub config : Config.Pipeline
config = record {
  settings = record {
    id = "p";
    lines = pos 0;
    run = true;
    buffer = pos 10;
    consistency = "";
    log_level = "info";
  };
  vars = end;
  inputs = (("cronjob", end) ∷ []) ∷ [];
  processors = [];
  outputs = (("log", end) ∷ []) ∷ [];
  keykeepers = [];
  lookups = [];
  runtime = none;
}

-- Plugins of every name, on which nothing fails. A plugin is known by its alias.
abbrev pub fine : Registry
fine = record {
  Object = String;
  get = λ k name. some name;
  as_set_serializer = λ o. none;
  as_set_parser = λ o. none;
  as_set_lookup = λ o. none;
  as_set_id = λ o. none;
  draw = λ cfg. 7;
  as_set_line = λ o. none;
  as_set_config = λ o. none;
  as_lazy = λ o. none;
  is_mixer = λ o. false;
  is_not = λ o. o == "not";
  wrap_not = λ o. o;
  set_base = λ k b o. some b.alias;
  decode = λ hook cfg o. ok o;
  init = λ o. ok o;
  get_key = λ o key. ok (str key);
  match_key = λ text. none;
  print = λ n. if nat_beq n 0 then "0" else "1";
}

pub config-builds : build_error fine config ≡ none
unfolding build_error ◌>>=◌ pass lifted nested Config.alias
config-builds = refl

-- A pipeline with two lines of one processor, which has two filters, one of them wrapped.
abbrev two_lines : Config.Pipeline
two_lines = record config {
  settings = record config.settings { lines = pos 2 };
  processors =
      ((
        "drop",
        field "filters"
            (table
              (field "not" (table (field "glob" (table end) end)) (field "pass" (table end) end)))
            end,
      )
        ∷ [])
      ∷ [];
}

-- The processor on a line, known by its number, with its filters.
abbrev on_line : String → PlugSet fine
on_line line = record {
  alias = concat "processor:drop:0:" line;
  object = concat "processor:drop:0:" line;
  filters =
      record {
        alias = concat "filter:glob::not::processor:drop:0:" line;
        object = concat "filter:glob::not::processor:drop:0:" line;
      }
      ∷ record {
        alias = concat "filter:pass::processor:drop:0:" line;
        object = concat "filter:pass::processor:drop:0:" line;
      }
      ∷ [];
}

abbrev parts : Assembled fine
parts = record {
  keepers = [];
  lookups = [];
  ins = record { alias = "input:cronjob:0"; object = "input:cronjob:0"; filters = [] } ∷ [];
  procs = (on_line "0" ∷ []) ∷ (on_line "1" ∷ []) ∷ [];
  outs = record { alias = "output:log:0"; object = "output:log:0"; filters = [] } ∷ [];
}

abbrev taken : Aliases
taken =
    "output:log:0" ∷ "filter:pass::processor:drop:0:1" ∷ "filter:glob::not::processor:drop:0:1"
    ∷ "processor:drop:0:1" ∷ "filter:pass::processor:drop:0:0"
    ∷ "filter:glob::not::processor:drop:0:0" ∷ "processor:drop:0:0" ∷ "input:cronjob:0" ∷ []

two_lines-ok : configure fine two_lines [] ≡ ok (parts, taken)
unfolding configure ◌>>=◌ pass lifted nested Config.alias
two_lines-ok = refl

configure-Distinct_example :
    Distinct (part_aliases parts)
    × ((alias : String) → contains (part_aliases parts) alias ≡ true → contains taken alias ≡ true)
configure-Distinct_example = configure-Distinct fine two_lines parts taken two_lines-ok
