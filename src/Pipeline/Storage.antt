-- ===== src/Pipeline/Storage.antt =====
-- pipeline/interfaces.go: the storage of pipeline configurations that the service works with. An
-- implementation is a state and its methods; a method that fails may still have changed the state.
use neptunus.Base.{String, Option, List, Result}
use neptunus.Config
use neptunus.Pipeline.{PipeError}

pub record Storage : Type 1 where
  pub St : Type 0
  pub list : St → Result PipeError (List Config.Pipeline)
  pub get : String → St → Result PipeError Config.Pipeline
  pub add : Config.Pipeline → St → Option PipeError × St
  pub update : Config.Pipeline → St → Option PipeError × St
  pub delete : String → St → Option PipeError × St
  pub acquire : String → St → Option PipeError × St
  pub release : String → St → Option PipeError × St
