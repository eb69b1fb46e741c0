-- ===== src/Remote/Faults.antt =====
-- pipeline/gateway/rest.go against pipeline/api/rest.go: the client on top of the server does what the
-- service does, up to the types of the errors.
use neptunus.Base.{◌≡◌, String, List, [], ◌∷◌, Option, none, some, Result, ok, err}
use neptunus.Core.Fields.{Error}
use neptunus.Config
use neptunus.Pipeline.{PipeError, not_found, conflict, io, validation}
use neptunus.Remote.{Fault, known, plain, Service, Web, Response}
use neptunus.Remote.Api.{fault_text, route}
use neptunus.Remote.Api
use neptunus.Remote.Gateway.{Network, Received, StateFault, fault, io_nil, last_error_of}
use neptunus.Remote.Gateway

-- What is relied on: the texts of an answer are decoded to what was encoded.
pub record Documented (W : Web) : Type 0 where
  pub errors : (e : String) → W.err_of_json (W.err_to_json e) ≡ ok e
  pub states : (s e : String) → W.ok_of_json (W.ok_to_json s e) ≡ ok (s, e)

-- The router reads the paths with an id as they were written. An id that is empty or has a slash is
-- not read so: `url.JoinPath` and the router take it for another path.
pub record IsCarried (carried : List String → List String) (id : String) : Type 0 where
  pub root : carried [] ≡ []
  pub alone : carried (id ∷ []) ≡ id ∷ []
  pub before : (word : String) → carried (id ∷ word ∷ []) ≡ id ∷ word ∷ []

-- A network that brings every request to the router, and the answer back. `carried` is what is left
-- of a path's segments when the client has joined them and the router has split them.
abbrev pub direct : (W : Web) → (List String → List String) → Service → Network W
direct W carried S = record {
  St = S.St;
  exchange = λ r st.
      let (res, st') = route W S r.method (carried r.path) r.body st in
      (ok (record { status = res.status; body = ok res.body }), st');
}

-- The error that the client returns for an error of the service: for `Start`, `Stop` and `Delete`,
-- for `Add`, for `Update` and for `State`.
abbrev pub change_seen : Option Fault → Option PipeError
change_seen none = none
change_seen (some (known (not_found e))) = some (not_found e)
change_seen (some (known (conflict e))) = some (conflict e)
change_seen (some f) = some (io (fault_text f))

abbrev pub add_seen : Option Fault → Option PipeError
add_seen none = none
add_seen (some (known (conflict e))) = some (conflict e)
add_seen (some (known (validation e))) = some (validation e)
add_seen (some f) = some (io (fault_text f))

abbrev pub update_seen : Option Fault → Option PipeError
update_seen none = none
update_seen (some (known e)) = some e
update_seen (some (plain e)) = some (io e)

abbrev pub state_seen :
    Result Fault (String × Option Error) → Result StateFault (String × Option Error)
state_seen (ok (s, none)) = ok (s, none)
state_seen (ok (s, some e)) = ok (s, last_error_of e)
state_seen (err (known (not_found e))) = err (fault (not_found e))
state_seen (err f) = err io_nil

module _ (W : Web) (law : Documented W) where
  received : Response W → Received W
  received r = record { status = r.status; body = ok r.body }
