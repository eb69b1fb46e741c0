-- ===== src/Pipeline/Files.antt =====
-- pipeline/storage/filesystem.go: the storage of pipelines in the files of a directory. What the code
-- calls of os, path/filepath and the encoders of config/pipeline.go is a parameter.
pub mod Stored
use Prim.Native.String.{◌++◌, len}
use text.Mathlib.Text.{starts_with, get?}
use neptunus.Base.{
  ℕ, ◌-◌, String, Bool, true, false, Option, none, some, List, [], ◌∷◌, Result, ok, err, ◌>>=◌,
  if◌then◌else◌, ◌==◌, string_comparable, leb,
}
use neptunus.Core.Fields.{Error}
use neptunus.Config
use neptunus.Config.{unmarshal_pipeline}
use neptunus.Pipeline.{PipeError, not_found, conflict, io, validation}
use neptunus.Pipeline.Storage.{Storage}

-- `write_file` takes the permission bits of a file that it makes.
pub record Os : Type 1 where
  pub St : Type 0
  pub Bytes : Type 0
  pub StatError : Type 0
  pub stat : String → St → Option StatError
  pub is_exist : StatError → Bool
  pub is_not_exist : StatError → Bool
  pub text : StatError → Error
  pub glob : String → St → Result Error (List String)
  pub read_file : String → St → Result Error Bytes
  pub write_file : String → Bytes → ℕ → St → Option Error × St
  pub remove : String → St → Option Error × St
  pub base : String → String
  pub extension : String → String
  pub unmarshal_format : Bytes → String → Result Error Config.Pipeline
  pub marshal_pipeline : Config.Pipeline → String → Result Error Bytes

pub record FileStorage : Type 0 where
  pub dir : String
  pub ext : String

-- strings.HasSuffix and strings.TrimSuffix.
unfoldable pub has_suffix : String → String → Bool
has_suffix s suffix =
    if leb (len suffix) (len s)
    then (elim (get? s (len s - len suffix) (len s)) [ none ↦ false | some end ↦ end == suffix ])
    else false

unfoldable pub trim_suffix : String → String → String
unfolding has_suffix
trim_suffix s suffix =
    if has_suffix s suffix
    then (elim (get? s 0 (len s - len suffix)) [ none ↦ s | some start ↦ start ])
    else s

-- `FS`, for a path separator `/`.
unfoldable pub fs : String → String → FileStorage
unfolding has_suffix
fs dir ext = record {
  dir = if has_suffix dir "/" then dir else dir ++ "/";
  ext = if starts_with ext "." then ext else "." ++ ext;
}

abbrev pub file_of : FileStorage → String → String
file_of s id = s.dir ++ id ++ s.ext

module _ (os : Os) where
  open os use {St, stat, is_exist, is_not_exist, text}

  unfoldable pub file_id : String → String
  unfolding trim_suffix
  file_id file = trim_suffix (os.base file) (os.extension file)

  unfoldable pub read_pipeline : String → St → Result PipeError Config.Pipeline
  unfolding unmarshal_pipeline file_id
  read_pipeline file st = elim (os.read_file file st) [
    | err e ↦ err (io e)
    | ok buf ↦ elim (unmarshal_pipeline os.unmarshal_format buf (os.extension file)) [
      | err e ↦ err (validation e)
      | ok pipe ↦ ok (record pipe { settings = record pipe.settings { id = file_id file } })
    ]
  ]

  unfoldable pub write_pipeline : Config.Pipeline → String → St → Option PipeError × St
  write_pipeline pipe file st = elim (os.marshal_pipeline pipe (os.extension file)) [
    | err e ↦ (some (validation e), st)
    | ok bytes ↦
        let (failed, st') = os.write_file file bytes 0 st in
        (elim failed [ none ↦ none | some e ↦ some (io e) ], st')
  ]

  -- `os.IsNotExist` and `os.IsExist` of the error that `os.Stat` returns; a nil error is neither.
  abbrev pub missing : String → St → Option Error
  missing file st = elim (stat file st) [
    | none ↦ none
    | some e ↦ if is_not_exist e then some (text e) else none
  ]

  abbrev pub taken : String → St → Bool
  taken file st = elim (stat file st) [ none ↦ false | some e ↦ is_exist e ]

  -- The loop of `List`.
  unfoldable pub read_all : List String → St → Result PipeError (List Config.Pipeline)
  unfolding read_pipeline
  read_all [] st = ok []
  read_all (v ∷ files) st = do
    pipe ← read_pipeline v st
    pipes ← read_all files st
    ok (pipe ∷ pipes)

  unfoldable pub list : FileStorage → St → Result PipeError (List Config.Pipeline)
  unfolding read_all
  list s st = elim (os.glob (s.dir ++ "*" ++ s.ext) st) [
    | err e ↦ err (io e)
    | ok files ↦ read_all files st
  ]

  unfoldable pub get : FileStorage → String → St → Result PipeError Config.Pipeline
  unfolding read_pipeline
  get s id st = elim (missing (file_of s id) st) [
    | some e ↦ err (not_found e)
    | none ↦ read_pipeline (file_of s id) st
  ]

  unfoldable pub add : FileStorage → Config.Pipeline → St → Option PipeError × St
  unfolding write_pipeline
  add s pipe st =
      if taken (file_of s pipe.settings.id) st
      then (some (conflict "file already exists"), st)
      else write_pipeline pipe (file_of s pipe.settings.id) st

  unfoldable pub update : FileStorage → Config.Pipeline → St → Option PipeError × St
  unfolding write_pipeline
  update s pipe st = elim (missing (file_of s pipe.settings.id) st) [
    | some e ↦ (some (not_found e), st)
    | none ↦ write_pipeline pipe (file_of s pipe.settings.id) st
  ]

  unfoldable pub delete : FileStorage → String → St → Option PipeError × St
  delete s id st = elim (missing (file_of s id) st) [
    | some e ↦ (some (not_found e), st)
    | none ↦
        let (failed, st') = os.remove (file_of s id) st in
        (elim failed [ none ↦ none | some e ↦ some (io e) ], st')
  ]

  -- The implementation of the service's interface: `Acquire` and `Release` do nothing.
  abbrev pub file_storage : FileStorage → Storage
  file_storage s = record {
    St = St;
    list = list s;
    get = get s;
    add = add s;
    update = update s;
    delete = delete s;
    acquire = λ id st. (none, st);
    release = λ id st. (none, st);
  }
