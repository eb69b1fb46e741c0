-- ===== src/Pipeline/Files/Stored.antt =====
-- pipeline/storage/filesystem.go: what is read behind a write, and behind a deletion.
use neptunus.Base.{
  String, ◌≡◌, refl, ap, true, false, none, some, ok, err, Option-cases, Result-cases, inl, inr,
}
use neptunus.Core.Fields.{Error}
use neptunus.Config
use neptunus.Pipeline.{not_found}
use neptunus.Pipeline.Files.{
  Os, missing, taken, FileStorage, file_of, write_pipeline, get, add, update, delete,
}

-- The behaviour of the file system and of the encoders that the storage relies on: a file that was
-- written is there and holds what was written, and a file that was removed is not there. The storage
-- writes with no permission bits, so that the process must be one that may read every file (on Unix, of
-- a privileged user).
pub record Documented (os : Os) : Type 0 where
  pub write_file-stat :
      (f : String) (d : os.Bytes) (s s' : os.St)
      → os.write_file f d 0 s ≡ (none, s')
      → os.stat f s' ≡ none
  pub write_file-read_file :
      (f : String) (d : os.Bytes) (s s' : os.St)
      → os.write_file f d 0 s ≡ (none, s')
      → os.read_file f s' ≡ ok d
  pub remove-stat :
      (f : String) (s s' : os.St)
      → os.remove f s ≡ (none, s')
      → (e : os.StatError) × (os.stat f s' ≡ some e) × (os.is_not_exist e ≡ true)

some≢none : {A : Type 0} {a : A} → ¬ (some a ≡ none)
some≢none p = cc

module _ (os : Os) where
  written :
      (pipe : Config.Pipeline) (file : String) (st st' : os.St)
      → write_pipeline os pipe file st ≡ (none, st')
      → (bytes : os.Bytes) × (os.marshal_pipeline pipe (os.extension file) ≡ ok bytes)
        × (os.write_file file bytes 0 st ≡ (none, st'))
  unfolding write_pipeline
  written pipe file st st' h = elim (Result-cases (os.marshal_pipeline pipe (os.extension file))) [
    | inr (e, bad) ↦ absurd (some≢none (ap (λ r. r.0) (rw (bad, write_pipeline) at h)))
    | inl (bytes, good) ↦
        let h1 = rw (good, write_pipeline) at h in
        elim (Option-cases (os.write_file file bytes 0 st).0) [
          | inl fine ↦ (bytes, good, λ i. (fine i, (h1 i).1))
          | inr (e, failed) ↦ absurd (some≢none (rw (failed) at (ap (λ r. r.0) h1)))
        ]
  ]

  present : (file : String) (st : os.St) → os.stat file st ≡ none → missing os file st ≡ none
  present file st h = rw (h, missing) refl

  removed :
      (s : FileStorage) (id : String) (st st' : os.St)
      → delete os s id st ≡ (none, st')
      → os.remove (file_of s id) st ≡ (none, st')
  unfolding delete
  removed s id st st' h = elim (Option-cases (missing os (file_of s id) st)) [
    | inr (e, gone) ↦ absurd (some≢none (ap (λ r. r.0) (rw (gone, delete) at h)))
    | inl there ↦
        let h1 = rw (there, delete) at h in
        elim (Option-cases (os.remove (file_of s id) st).0) [
          | inl fine ↦ λ i. (fine i, (h1 i).1)
          | inr (e, failed) ↦ absurd (some≢none (rw (failed) at (ap (λ r. r.0) h1)))
        ]
  ]

  -- Where the file of a pipeline is there, the pipeline can be encoded and the file system writes,
  -- `Add` succeeds as `Update` does, with the same effect, and the file then holds the new pipeline
  -- in place of what it held.
  pub add-update :
      (law : Documented os) (s : FileStorage) (pipe : Config.Pipeline) (bytes : os.Bytes)
      (st st' : os.St)
      → os.stat (file_of s pipe.settings.id) st ≡ none
      → os.marshal_pipeline pipe (os.extension (file_of s pipe.settings.id)) ≡ ok bytes
      → os.write_file (file_of s pipe.settings.id) bytes 0 st ≡ (none, st')
      → (add os s pipe st ≡ (none, st'))
        × (update os s pipe st ≡ (none, st'))
        × (os.read_file (file_of s pipe.settings.id) st' ≡ ok bytes)
  unfolding add update write_pipeline
  add-update law s pipe bytes st st' there encodes wrote =
      let file = file_of s pipe.settings.id in
      let free : taken os file st ≡ false = rw (there, taken) refl in
      let written : write_pipeline os pipe file st ≡ (none, st') =
        rw (encodes, write_pipeline, wrote) refl in
      (
        rw (free, add) written,
        rw (present file st there, update) written,
        law.write_file-read_file file bytes st st' wrote,
      )

  -- Behind a deletion that succeeded, `Get`, `Update` and another deletion report that the pipeline
  -- is not found, and leave the storage as it is.
  pub delete-missing :
      (law : Documented os) (s : FileStorage) (pipe : Config.Pipeline) (st st' : os.St)
      → delete os s pipe.settings.id st ≡ (none, st')
      → (x : Error) × (get os s pipe.settings.id st' ≡ err (not_found x))
        × (update os s pipe st' ≡ (some (not_found x), st'))
        × (delete os s pipe.settings.id st' ≡ (some (not_found x), st'))
  unfolding get update delete
  delete-missing law s pipe st st' h =
      let file = file_of s pipe.settings.id in
      let (x, stated, absent) = law.remove-stat file st st' (removed s pipe.settings.id st st' h) in
      let gone : missing os file st' ≡ some (os.text x) = rw (stated, missing, absent) refl in
      (os.text x, rw (gone, get) refl, rw (gone, update) refl, rw (gone, delete) refl)
