-- ===== src/Remote/Api.antt =====
-- pipeline/api/rest.go: the handlers of the requests, and the router.
use neptunus.Base.{
  ℕ, String, Option, none, some, List, [], ◌∷◌, Result, ok, err, ◌==◌, string_comparable,
  if◌then◌else◌,
}
use neptunus.Core.Fields.{Error}
use neptunus.Config
use neptunus.Pipeline.{PipeError, not_found, conflict, io, validation}
use neptunus.Remote.{Fault, known, plain, Service, Method, get, post, put, delete, Web, Response}

-- The method `Error` of an error.
abbrev pub error_text : PipeError → Error
error_text (not_found e) = e
error_text (conflict e) = e
error_text (io e) = e
error_text (validation e) = e

abbrev pub fault_text : Fault → Error
fault_text (known e) = error_text e
fault_text (plain e) = e

-- `errAsString`.
unfoldable pub err_as_string : Option Error → String
err_as_string none = ""
err_as_string (some e) = e

-- The status that a handler answers an error with.
unfoldable pub start_status : Fault → ℕ
start_status (known (validation e)) = 500
start_status (known (not_found e)) = 404
start_status (known (conflict e)) = 409
start_status (known (io e)) = 500
start_status (plain e) = 500

unfoldable pub stop_status : Fault → ℕ
stop_status (known (conflict e)) = 409
stop_status (known (not_found e)) = 404
stop_status _ = 500

unfoldable pub state_status : Fault → ℕ
state_status (known (not_found e)) = 404
state_status _ = 500

unfoldable pub list_status : Fault → ℕ
list_status (known (validation e)) = 500
list_status (known (io e)) = 500
list_status _ = 500

unfoldable pub get_status : Fault → ℕ
get_status (known (not_found e)) = 404
get_status (known (validation e)) = 500
get_status (known (io e)) = 500
get_status _ = 500

unfoldable pub add_status : Fault → ℕ
add_status (known (conflict e)) = 409
add_status (known (validation e)) = 400
add_status (known (io e)) = 500
add_status _ = 500

unfoldable pub update_status : Fault → ℕ
update_status (known (not_found e)) = 404
update_status (known (conflict e)) = 409
update_status (known (validation e)) = 400
update_status (known (io e)) = 500
update_status _ = 500

unfoldable pub delete_status : Fault → ℕ
delete_status (known (not_found e)) = 404
delete_status (known (conflict e)) = 409
delete_status (known (io e)) = 500
delete_status _ = 500

abbrev pub named : String → Config.Pipeline → Config.Pipeline
named id pipe = record pipe { settings = record pipe.settings { id = id } }

module _ (W : Web) where
  abbrev refused : (Fault → ℕ) → Fault → Response W
  refused status f = record { status = status f; body = W.err_to_json (fault_text f) }

  abbrev done : ℕ → String → Option Error → Response W
  done status msg e = record { status = status; body = W.ok_to_json msg (err_as_string e) }

  -- The answer to a change, by what the service returned.
  abbrev pub answered : ℕ → String → (Fault → ℕ) → Option Fault → Response W
  answered status msg faults none = done status msg none
  answered status msg faults (some f) = refused faults f

  -- `data, _ := config.MarshalPipeline(...)`.
  abbrev body_of : Result Error W.Bytes → W.Bytes
  body_of (ok raw) = raw
  body_of (err e) = W.empty

  abbrev pub state_response : Result Fault (String × Option Error) → Response W
  state_response (ok (status, last)) = done 200 status last
  state_response (err f) = refused state_status f

module _ (W : Web) (S : Service) where
  open S use {St}

  unfoldable pub start : String → St → Response W × St
  unfolding start_status err_as_string
  start id st = let (r, st') = S.start id st in (answered W 200 "starting" start_status r, st')

  unfoldable pub stop : String → St → Response W × St
  unfolding stop_status err_as_string
  stop id st = let (r, st') = S.stop id st in (answered W 200 "stopping" stop_status r, st')

  unfoldable pub state : String → St → Response W
  unfolding state_status err_as_string
  state id st = state_response W (S.state id st)

  -- The loop of `List` that sets what is computed of a pipeline.
  unfoldable pub with_states : List Config.Pipeline → St → List Config.Pipeline
  unfolding err_as_string
  with_states [] st = []
  with_states (p ∷ pipes) st =
      record p {
        runtime = some (elim (S.state p.settings.id st) [
          | err f ↦ record { state = ""; last_error = fault_text f }
          | ok s ↦ record { state = s.0; last_error = err_as_string s.1 }
        ]);
      }
      ∷ with_states pipes st

  unfoldable pub list : St → Response W
  unfolding list_status with_states
  list st = elim (S.list st) [
    | ok pipes ↦ record { status = 200; body = body_of W (W.marshal_list (with_states pipes st)) }
    | err f ↦ refused W list_status f
  ]

  unfoldable pub get_one : String → St → Response W
  unfolding get_status
  get_one id st = elim (S.get id st) [
    | ok pipe ↦ record { status = 200; body = body_of W (W.marshal_pipeline pipe) }
    | err f ↦ refused W get_status f
  ]

  unfoldable pub add : W.Bytes → St → Response W × St
  unfolding add_status err_as_string
  add raw st = elim (W.unmarshal_pipeline raw) [
    | err e ↦ (record { status = 400; body = W.err_to_json e }, st)
    | ok pipe ↦ let (r, st') = S.add pipe st in (answered W 201 "added" add_status r, st')
  ]

  unfoldable pub update : String → W.Bytes → St → Response W × St
  unfolding update_status err_as_string
  update id raw st = elim (W.unmarshal_pipeline raw) [
    | err e ↦ (record { status = 400; body = W.err_to_json e }, st)
    | ok pipe ↦
        let (r, st') = S.update (named id pipe) st in
        (answered W 200 "updated" update_status r, st')
  ]

  unfoldable pub remove : String → St → Response W × St
  unfolding delete_status err_as_string
  remove id st = let (r, st') = S.delete id st in (answered W 200 "deleted" delete_status r, st')

  -- The handlers of a path with a word behind the id.
  unfoldable pub route_word : Method → String → String → St → Response W × St
  route_word post id word st =
      if word == "start"
      then start id st
      else if word == "stop"
      then stop id st
      else (record { status = W.no_route; body = W.empty }, st)
  route_word get id word st =
      if word == "state"
      then (state id st, st)
      else (record { status = W.no_route; body = W.empty }, st)
  route_word _ id word st = (record { status = W.no_route; body = W.empty }, st)

  -- `Router`.
  unfoldable pub route : Method → List String → W.Bytes → St → Response W × St
  route get [] raw st = (list st, st)
  route post [] raw st = add raw st
  route get (id ∷ []) raw st = (get_one id st, st)
  route put (id ∷ []) raw st = update id raw st
  route delete (id ∷ []) raw st = remove id st
  route method (id ∷ word ∷ []) raw st = route_word method id word st
  route method path raw st = (record { status = W.no_route; body = W.empty }, st)
