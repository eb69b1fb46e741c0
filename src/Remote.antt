-- ===== src/Remote.antt =====
-- pipeline/interfaces.go: the service of pipelines. pipeline/api/rest.go offers it over HTTP, and
-- pipeline/gateway/rest.go is a client of that, with the same methods.
pub mod Api
pub mod Gateway
pub mod Faults
use neptunus.Base.{ℕ, String, Option, List, Result}
use neptunus.Core.Fields.{Error}
use neptunus.Config
use neptunus.Pipeline.{PipeError}

-- An error of the service: one of the types of pipeline/errors.go, or any other.
pub data Fault : Type 0 where
  known : PipeError → Fault
  plain : Error → Fault

-- The service, on a state. What `State` returns beside its error is the state and the last error.
pub record Service : Type 1 where
  pub St : Type 0
  pub start : String → St → Option Fault × St
  pub stop : String → St → Option Fault × St
  pub state : String → St → Result Fault (String × Option Error)
  pub list : St → Result Fault (List Config.Pipeline)
  pub get : String → St → Result Fault Config.Pipeline
  pub add : Config.Pipeline → St → Option Fault × St
  pub update : Config.Pipeline → St → Option Fault × St
  pub delete : String → St → Option Fault × St

pub data Method : Type 0 where
  get post put delete : Method

-- What is used of net/http, of encoding/json and of the decoders of config/pipeline.go, which set the
-- defaults of a pipeline's settings. A path is the list of its segments, and `no_route` is what the
-- router answers to a request that it has no handler for.
pub record Web : Type 1 where
  pub Bytes : Type 0
  pub empty : Bytes
  pub err_to_json : String → Bytes
  pub err_of_json : Bytes → Result Error String
  pub ok_to_json : String → String → Bytes
  pub ok_of_json : Bytes → Result Error (String × String)
  pub marshal_pipeline : Config.Pipeline → Result Error Bytes
  pub unmarshal_pipeline : Bytes → Result Error Config.Pipeline
  pub marshal_list : List Config.Pipeline → Result Error Bytes
  pub unmarshal_list : Bytes → Result Error (List Config.Pipeline)
  pub no_route : ℕ

module _ (W : Web) where
  pub record Request : Type 0 where
    pub method : Method
    pub path : List String
    pub body : W.Bytes

  pub record Response : Type 0 where
    pub status : ℕ
    pub body : W.Bytes
