-- ===== src/AtomicFile.antt =====
-- internal/atomicfile/atomicfile.go: a file is replaced by a temporary file that is written first. The
-- states that the directory passes through are listed, the last one first.
pub mod Laws
use dataporch.Prelude.{
  ℕ, zero, suc, Bool, true, false, List, [], ◌∷◌, ◌++◌, Option, none, some, if◌then◌else◌, take,
  drop, length, ◌==◌,
}
use dataporch.Text.{Text}
use dataporch.Fault.{Fault, Checked, Result, ok, err, ◌>>=◌, ◌>>◌}

pub data FileKind : Type 0 where
  regular symlink directory irregular : FileKind

-- `is_synced` says that the content is known to be on the disk.
pub record StoredFile : Type 0 where
  pub kind : FileKind
  pub permission : ℕ
  pub content : Text
  pub is_synced : Bool

pub record Directory : Type 0 where
  pub target : Option StoredFile
  pub temporary : Option StoredFile

-- What the calls return; the n-th `Write` is given what is left to write. `removed` says whether the
-- removal of the temporary file works; its error is dropped.
pub record Answers : Type 0 where
  pub created : Result Bool
  pub chmod : Checked
  pub write : ℕ → Text → Result ℕ
  pub sync : Checked
  pub close : Checked
  pub rename : Checked
  pub removed : Bool
  pub sync_directory : Checked

-- The loop of `writeAll`, on fuel: whether it succeeds, and what it has written.
unfoldable pub write_loop : ℕ → (ℕ → Text → Result ℕ) → ℕ → Text → Checked × Text
write_loop zero write n payload = (err [], [])
write_loop (suc fuel) write n [] = (ok tt, [])
write_loop (suc fuel) write n (b ∷ rest) = elim (write n (b ∷ rest)) [
  | err e ↦ (err e, [])
  | ok written ↦
      let more = write_loop fuel write (suc n) (drop written (b ∷ rest)) in
      if written == 0 then (err [], []) else (more.0, take written (b ∷ rest) ++ more.1)
]

unfoldable pub write_all : (ℕ → Text → Result ℕ) → Text → Checked × Text
write_all write payload = write_loop (suc (length payload)) write 0 payload

-- The temporary file when it was created and given its permission, and as it is published.
abbrev pub written_file : ℕ → Text → Bool → StoredFile
written_file permission content is_synced = record {
  kind = regular;
  permission = permission;
  content = content;
  is_synced = is_synced;
}

abbrev pub with_temporary : Directory → StoredFile → Directory
with_temporary d f = record d { temporary = some f }

-- The deferred removal of the temporary file.
unfoldable pub remove_temporary : Answers → Directory → List Directory → List Directory
remove_temporary a d passed = if a.removed then record d { temporary = none } ∷ passed else passed

-- What follows a temporary file that is closed.
unfoldable pub publish :
    Answers → StoredFile → Directory → List Directory → Checked × List Directory
publish a f d passed = elim a.rename [
  | err e ↦ (err e, remove_temporary a d passed)
  | ok u ↦ (a.sync_directory, record { target = some f; temporary = none } ∷ passed)
]

-- What follows a temporary file that was created.
unfoldable pub fill : Answers → Text → ℕ → Directory → Checked × List Directory
fill a payload permission d =
    let empty = with_temporary d (written_file 384 [] false) in
    elim a.chmod [
      | err e ↦ (err e, remove_temporary a empty (empty ∷ []))
      | ok u ↦
          let w = write_all a.write payload in
          let filled = with_temporary d (written_file permission w.1 false) in
          elim w.0 [
            | err e ↦ (err e, remove_temporary a filled (filled ∷ empty ∷ []))
            | ok v ↦ elim a.sync [
              | err e ↦ (err e, remove_temporary a filled (filled ∷ empty ∷ []))
              | ok x ↦
                  let f = written_file permission w.1 true in
                  let synced = with_temporary d f in
                  elim a.close [
                    | err e ↦ (err e, remove_temporary a synced (synced ∷ filled ∷ empty ∷ []))
                    | ok y ↦ publish a f synced (synced ∷ filled ∷ empty ∷ [])
                  ]
            ]
          ]
    ]

unfoldable pub replace : Answers → Text → ℕ → Directory → Checked × List Directory
replace a payload permission d = elim a.created [
  | err e ↦ (err e, [])
  | ok is_there ↦ if is_there then fill a payload permission d else (err [], [])
]

-- The last state.
abbrev pub last_state : Directory → List Directory → Directory
last_state d [] = d
last_state d (x ∷ passed) = x
