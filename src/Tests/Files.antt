-- ===== src/Tests/Files.antt =====
-- A file system in an association list, and what the theorems on pipeline/storage/filesystem.go state
-- of it.
use Prim.Native.String.{len}
use text.Mathlib.Text.{get?}
use neptunus.Base.{
  ◌≡◌, refl, sym, ap, ◌∙◌, String, true, false, Option, none, some, [], ◌∷◌, Assoc, lookup, insert,
  remove, lookup-insert, lookup-remove, ok, err, string_comparable, arith, inl, Option-cases, inr,
  ==_refl,
}
use neptunus.Config
use neptunus.Config.{end}
use neptunus.Core.Fields.{Error}
use neptunus.Pipeline.{not_found}
use neptunus.Pipeline.Files.{Os, FileStorage, file_of, get, add, update, delete}
use neptunus.Pipeline.Files.Stored.{Documented, add-update, delete-missing}
use neptunus.Tests.Builds.{config}

abbrev Disk : Type 0
Disk = Assoc String Config.Pipeline

-- The base name of a file of the directory "/p/".
abbrev base_name : String → String
base_name f = elim (get? f 3 (len f)) [ none ↦ f | some name ↦ name ]

abbrev removal : String → Disk → Option String × Disk
removal f s = elim (lookup f s) [ none ↦ (some "no such file", s) | some p ↦ (none, remove f s) ]

abbrev plain : Config.Pipeline → Config.Pipeline
plain p = record p { vars = end }

abbrev disk : Os
disk = record {
  St = Disk;
  Bytes = Config.Pipeline;
  StatError = Unit {0};
  stat = λ f s. elim (lookup f s) [ none ↦ some tt | some p ↦ none ];
  is_exist = λ x. false;
  is_not_exist = λ x. true;
  text = λ x. "no such file";
  glob = λ pattern s. ok [];
  read_file = λ f s. elim (lookup f s) [ none ↦ err "no such file" | some p ↦ ok p ];
  write_file = λ f p bits s. (none, insert f p s);
  remove = removal;
  base = base_name;
  extension = λ f. ".toml";
  unmarshal_format = λ p f. ok p;
  marshal_pipeline = λ p f. ok (plain p);
}

some≢none : {A : Type 0} {a : A} → ¬ (some a ≡ none)
some≢none p = cc

removed-lookup : (f : String) (s s' : Disk) → removal f s ≡ (none, s') → lookup f s' ≡ none
removed-lookup f s s' h = elim (Option-cases (lookup f s)) [
  | inl gone ↦ absurd (some≢none (ap (λ r. r.0) (rw (gone, removal) at h)))
  | inr (p, there) ↦
      let h1 = rw (there, removal) at h in
      ap (lookup f) (sym (ap (λ r. r.1) h1)) ∙ ground (arith, lookup-remove f f s, ==_refl f)
]

written-lookup : (f : String) (p : Config.Pipeline) (s : Disk) → lookup f (insert f p s) ≡ some p
written-lookup f p s = ground (arith, lookup-insert f f p s, ==_refl f)

disk_documented : Documented disk
disk_documented = record {
  write_file-stat = λ f p s s' h.
      let kept : lookup f s' ≡ some p =
        ap (lookup f) (sym (ap (λ r. r.1) h)) ∙ written-lookup f p s in
      rw (kept, disk) refl;
  write_file-read_file = λ f p s s' h.
      let kept : lookup f s' ≡ some p =
        ap (lookup f) (sym (ap (λ r. r.1) h)) ∙ written-lookup f p s in
      rw (kept, disk) refl;
  remove-stat = λ f s s' h. (tt, rw (removed-lookup f s s' h, disk) refl, refl);
}

abbrev storage : FileStorage
storage = record { dir = "/p/"; ext = ".toml" }

abbrev stored : Disk
stored = ("/p/p.toml", plain config) ∷ []

config-delete : delete disk storage "p" stored ≡ (none, [])
unfolding delete remove lookup
config-delete = refl

config-there : disk.stat (file_of storage "p") stored ≡ none
unfolding lookup
config-there = refl

config-written : disk.write_file (file_of storage "p") (plain config) 0 stored ≡ (none, stored)
unfolding insert
config-written = refl

add-update_example :
    (add disk storage config stored ≡ (none, stored))
    × (update disk storage config stored ≡ (none, stored))
    × (disk.read_file (file_of storage "p") stored ≡ ok (plain config))
add-update_example =
    add-update disk disk_documented storage config (plain config) stored stored config-there refl
      config-written

delete-missing_example :
    (x : Error) × (get disk storage "p" [] ≡ err (not_found x))
    × (update disk storage config [] ≡ (some (not_found x), []))
    × (delete disk storage "p" [] ≡ (some (not_found x), []))
delete-missing_example = delete-missing disk disk_documented storage config stored [] config-delete
