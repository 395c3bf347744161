-- ===== src/Connection/FileStore.antt =====
-- internal/connection/filestore/store.go: the definitions in a file. Package encoding/json is a
-- parameter; the file is replaced as in internal/atomicfile.
pub mod Laws
use dataporch.Prelude.{
  ℕ, Bool, true, false, not, List, [], ◌∷◌, Option, none, some, if◌then◌else◌, ◌==◌, ◌%◌,
}
use dataporch.Text.{Text}
use dataporch.Fault.{
  Fault, Checked, Result, ok, err, wraps, require, or_else, or_fail, ◌>>=◌, ◌>>◌, Context,
  nil_context, context, store_corrupt, invalid_permissions, definition_not_found,
}
use dataporch.Assoc.{Assoc, lookup, insert, values}
use dataporch.Sort.{sort}
use dataporch.Connection.Definition.{Definition, validate}
use dataporch.AtomicFile.{Answers, Directory, StoredFile, FileKind, regular, replace, last_state}

-- `json.Marshal` and `json.Unmarshal` of a snapshot.
pub record Json : Type 0 where
  pub marshal : List Definition → Result Text
  pub unmarshal : Text → Option (List Definition)

-- The map, and the directory of the file.
pub record FileStore : Type 0 where
  pub definitions : Assoc Definition
  pub directory : Directory

-- `validContext`.
unfoldable pub valid_context : Context → Checked
valid_context nil_context = err []
valid_context (context f) = elim (f 0) [ none ↦ ok tt | some s ↦ err (wraps s) ]

unfoldable pub sorted_definitions : Assoc Definition → List Definition
sorted_definitions definitions = sort (λ d. d.id) (values definitions)

abbrev is_regular : FileKind → Bool
is_regular regular = true
is_regular _ = false

-- The loop of `load`.
unfoldable pub load_all : List Definition → Assoc Definition → Result (Assoc Definition)
load_all [] loaded = ok loaded
load_all (d ∷ rest) loaded = do
  or_else (validate d) (λ e. wraps store_corrupt)
  elim (lookup d.id loaded) [ none ↦ ok tt | some old ↦ err (wraps store_corrupt) ]
  load_all rest (insert d.id d loaded)

module _ (json : Json) where
  -- `lstat` is what `os.Lstat` fails with, other than that there is no file, and `read` what
  -- `os.ReadFile` does.
  unfoldable pub load : Checked → Checked → Directory → Result (Assoc Definition)
  load lstat read d = lstat >> elim d.target [
    | none ↦ ok []
    | some f ↦ (do
      require (is_regular f.kind) (wraps store_corrupt)
      require (f.permission % 64 == 0) (wraps invalid_permissions)
      read
      persisted ← or_fail (json.unmarshal f.content) (wraps store_corrupt)
      load_all persisted [])
  ]

  -- `Open`, on a path that is not empty.
  unfoldable pub open_store : Checked → Checked → Directory → Result FileStore
  open_store lstat read d = do
    definitions ← load lstat read d
    ok (record { definitions = definitions; directory = d })

  -- `writeSnapshot`.
  unfoldable pub write_snapshot : Answers → List Definition → Directory → Checked × Directory
  write_snapshot answers definitions d = elim (json.marshal definitions) [
    | err e ↦ (err e, d)
    | ok written ↦ let r = replace answers written 384 d in (r.0, last_state d r.1)
  ]

  -- `Lookup`.
  unfoldable pub find : Context → Text → FileStore → Result Definition
  find ctx id s = do
    valid_context ctx
    or_fail (lookup id s.definitions) (wraps definition_not_found)

  -- `List`.
  unfoldable pub list : Context → FileStore → Result (List Definition)
  list ctx s = do valid_context ctx; ok (sorted_definitions s.definitions)

  -- `Upsert`, with what the calls on the files return.
  unfoldable pub upsert : Answers → Context → Definition → FileStore → Checked × FileStore
  upsert answers ctx d s = elim (valid_context ctx >> validate d) [
    | err e ↦ (err e, s)
    | ok u ↦
        let definitions = insert d.id d s.definitions in
        let w = write_snapshot answers (sorted_definitions definitions) s.directory in
        elim w.0 [
          | err e ↦ (err e, record s { directory = w.1 })
          | ok v ↦ (ok tt, record { definitions = definitions; directory = w.1 })
        ]
  ]
