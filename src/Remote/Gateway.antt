-- ===== src/Remote/Gateway.antt =====
-- pipeline/gateway/rest.go: the client, whose methods are those of the service.
use neptunus.Base.{
  ℕ, String, Option, none, some, List, [], ◌∷◌, Result, ok, err, nat_beq, if◌then◌else◌,
}
use Prim.Native.String.{len}
use neptunus.Core.Fields.{Error}
use neptunus.Config
use neptunus.Config.{set_pipeline_defaults}
use neptunus.Pipeline.{PipeError, not_found, conflict, io, validation}
use neptunus.Remote.{Method, get, post, put, delete, Web, Request}

-- What the client receives: the body may fail to be read to its end.
pub record Received (W : Web) : Type 0 where
  pub status : ℕ
  pub body : Result Error W.Bytes

-- The way of a request to the server and back, on the server's state. A request that fails may have
-- been served.
pub record Network (W : Web) : Type 1 where
  pub St : Type 0
  pub exchange : Request W → St → Result Error (Received W) × St

-- An error of the client's `State`: `io_nil` is an IOError around nil, whose method `Error` panics.
pub data StateFault : Type 0 where
  fault : PipeError → StateFault
  io_nil : StateFault

abbrev pub last_error_of : String → Option Error
last_error_of e = if nat_beq (len e) 0 then none else some e

module _ (W : Web) where
  -- `unpackApiError`.
  unfoldable pub unpack_api_error : Result Error W.Bytes → Error
  unpack_api_error (err e) = e
  unpack_api_error (ok raw) = elim (W.err_of_json raw) [ err e ↦ e | ok text ↦ text ]

  abbrev request : Method → List String → W.Bytes → Request W
  request method path raw = record { method = method; path = path; body = raw }

  -- The `switch` on the status that `Start`, `Stop` and `Delete` have.
  unfoldable pub change_error : Received W → Option PipeError
  unfolding unpack_api_error
  change_error r =
      if nat_beq r.status 200
      then none
      else if nat_beq r.status 404
      then some (not_found (unpack_api_error r.body))
      else if nat_beq r.status 409
      then some (conflict (unpack_api_error r.body))
      else some (io (unpack_api_error r.body))

  -- The `switch` of `Add`, and that of `Update`.
  unfoldable pub add_error : Received W → Option PipeError
  unfolding unpack_api_error
  add_error r =
      if nat_beq r.status 201
      then none
      else if nat_beq r.status 409
      then some (conflict (unpack_api_error r.body))
      else if nat_beq r.status 400
      then some (validation (unpack_api_error r.body))
      else some (io (unpack_api_error r.body))

  unfoldable pub update_error : Received W → Option PipeError
  unfolding unpack_api_error
  update_error r =
      if nat_beq r.status 200
      then none
      else if nat_beq r.status 404
      then some (not_found (unpack_api_error r.body))
      else if nat_beq r.status 409
      then some (conflict (unpack_api_error r.body))
      else if nat_beq r.status 400
      then some (validation (unpack_api_error r.body))
      else some (io (unpack_api_error r.body))

  -- The body of an answer with the status 200 to `State`.
  unfoldable pub state_of : Result Error W.Bytes → Result StateFault (String × Option Error)
  state_of (err e) = err (fault (io e))
  state_of (ok raw) = elim (W.ok_of_json raw) [
    | err e ↦ err (fault (io e))
    | ok s ↦ ok (s.0, last_error_of s.1)
  ]

  unfoldable pub state_answer :
      Result Error (Received W) → Result StateFault (String × Option Error)
  unfolding state_of unpack_api_error
  state_answer (err e) = err (fault (io e))
  state_answer (ok r) =
      if nat_beq r.status 200
      then state_of r.body
      else if nat_beq r.status 404
      then err (fault (not_found (unpack_api_error r.body)))
      else err io_nil

  -- A body that is decoded, where a failure is one of reading.
  abbrev decoded :
      {A : Type 0} → (W.Bytes → Result Error A) → Result Error W.Bytes → Result PipeError A
  decoded f (err e) = err (io e)
  decoded f (ok raw) = elim (f raw) [ err e ↦ err (io e) | ok a ↦ ok a ]

  unfoldable pub list_answer : Result Error (Received W) → Result PipeError (List Config.Pipeline)
  unfolding unpack_api_error
  list_answer (err e) = err (io e)
  list_answer (ok r) =
      if nat_beq r.status 200
      then decoded W.unmarshal_list r.body
      else err (io (unpack_api_error r.body))

  unfoldable pub get_answer : Result Error (Received W) → Result PipeError Config.Pipeline
  unfolding unpack_api_error
  get_answer (err e) = err (io e)
  get_answer (ok r) =
      if nat_beq r.status 200
      then decoded W.unmarshal_pipeline r.body
      else if nat_beq r.status 404
      then err (not_found (unpack_api_error r.body))
      else err (io (unpack_api_error r.body))

module _ (W : Web) (N : Network W) where
  open N use {St}

  -- An exchange, and what is made of the answer.
  abbrev pub exchanged :
      (Received W → Option PipeError) → Result Error (Received W) × St → Option PipeError × St
  exchanged f (err e, st) = (some (io e), st)
  exchanged f (ok r, st) = (f r, st)

  unfoldable pub start : String → St → Option PipeError × St
  start id st =
      exchanged (change_error W) (N.exchange (request W post (id ∷ "start" ∷ []) W.empty) st)

  unfoldable pub stop : String → St → Option PipeError × St
  stop id st =
      exchanged (change_error W) (N.exchange (request W post (id ∷ "stop" ∷ []) W.empty) st)

  unfoldable pub remove : String → St → Option PipeError × St
  remove id st = exchanged (change_error W) (N.exchange (request W delete (id ∷ []) W.empty) st)

  unfoldable pub add : Config.Pipeline → St → Option PipeError × St
  add pipe st = elim (W.marshal_pipeline pipe) [
    | err e ↦ (some (validation e), st)
    | ok raw ↦ exchanged (add_error W) (N.exchange (request W post [] raw) st)
  ]

  unfoldable pub update : Config.Pipeline → St → Option PipeError × St
  update pipe st = elim (W.marshal_pipeline pipe) [
    | err e ↦ (some (validation e), st)
    | ok raw ↦
        exchanged (update_error W) (N.exchange (request W put (pipe.settings.id ∷ []) raw) st)
  ]

  unfoldable pub state : String → St → Result StateFault (String × Option Error)
  state id st = state_answer W (N.exchange (request W get (id ∷ "state" ∷ []) W.empty) st).0

  unfoldable pub list : St → Result PipeError (List Config.Pipeline)
  list st = list_answer W (N.exchange (request W get [] W.empty) st).0

  unfoldable pub get_one : String → St → Result PipeError Config.Pipeline
  get_one id st = get_answer W (N.exchange (request W get (id ∷ []) W.empty) st).0
