-- ===== src/Tests/Remotes.antt =====
-- The client of pipeline/gateway/rest.go on top of the server of pipeline/api/rest.go.
use neptunus.Base.{ℕ, String, none, some, List, [], ◌∷◌, Result, ok, err}
use neptunus.Core.Fields.{Error}
use neptunus.Config
use neptunus.Config.{set_pipeline_defaults}
use neptunus.Pipeline.{not_found, conflict, validation}
use neptunus.Remote.{known, plain, Service, Web}
use neptunus.Remote.Gateway
use neptunus.Tests.Builds.{config}

data Text : Type 0 where
  nothing : Text
  error : String → Text
  answer : String → String → Text
  pipeline : Config.Pipeline → Text
  pipelines : List Config.Pipeline → Text

abbrev error_of : Text → Result Error String
error_of (error e) = ok e
error_of _ = err "no error"

abbrev answer_of : Text → Result Error (String × String)
answer_of (answer s e) = ok (s, e)
answer_of _ = err "no answer"

-- A configuration as it is decoded.
abbrev defaulted : Config.Pipeline → Config.Pipeline
defaulted p = record p { settings = set_pipeline_defaults p.settings }

abbrev pipeline_of : Text → Result Error Config.Pipeline
pipeline_of (pipeline p) = ok (defaulted p)
pipeline_of _ = err "no pipeline"

abbrev pipelines_of : Text → Result Error (List Config.Pipeline)
pipelines_of (pipelines ps) = ok ps
pipelines_of _ = err "no pipelines"

abbrev plain_text : Web
plain_text = record {
  Bytes = Text;
  empty = nothing;
  err_to_json = error;
  err_of_json = error_of;
  ok_to_json = answer;
  ok_of_json = answer_of;
  marshal_pipeline = λ p. ok (pipeline p);
  unmarshal_pipeline = pipeline_of;
  marshal_list = λ ps. ok (pipelines ps);
  unmarshal_list = pipelines_of;
  no_route = 404;
}

-- A service of one pipeline that counts what it is asked to change, and whose state is unknown.
abbrev counting : Service
counting = record {
  St = ℕ;
  start = λ id n. (none, n);
  stop = λ id n. (some (known (conflict "stopped")), n);
  state = λ id n. err (plain "no state");
  list = λ n. ok (config ∷ []);
  get = λ id n. ok config;
  add = λ p n. (some (known (validation "bad")), n);
  update = λ p n. (none, n);
  delete = λ id n. (some (known (not_found "gone")), n);
}
