-- ===== src/Core/Fields.antt =====
-- What core/event.go uses of the module github.com/gekatateam/mappath, which is not part of the
-- repository: the values that an event carries (Go's `any`) and the access to them by a path.
use neptunus.Base.{String, Result}

-- An error is known by the text that its method `Error` returns.
abbrev pub Error : Type 0
Error = String

pub record MapPath : Type 1 where
  pub Any : Type 0
  pub nil : Any
  pub get : Any → String → Result Error Any
  pub put : Any → String → Any → Result Error Any
  pub delete : Any → String → Result Error Any
  pub clone : Any → Any
