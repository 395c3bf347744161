-- ===== src/Token/Local.antt =====
-- internal/mcptoken/local/store.go: the token's state in a file. Package encoding/json and the format
-- RFC3339Nano of package time are parameters; the file is replaced as in internal/atomicfile.
pub mod Laws
pub mod Stored
use dataporch.Prelude.{
  ℕ, Bool, true, false, not, ◌||◌, ◌&&◌, List, [], ◌∷◌, Option, none, some, if◌then◌else◌, ltb, leb,
  ◌==◌, length, ◌%◌,
}
use dataporch.Text.{Text, bytes, same}
use dataporch.Text.Base64
use dataporch.Fault.{
  Fault, Checked, Result, ok, err, wraps, require, or_else, or_fail, ◌>>=◌, ◌>>◌, Context,
  nil_context, context, later, store_corrupt, invalid_permissions,
}
use dataporch.AtomicFile.{
  Answers, Directory, StoredFile, FileKind, regular, symlink, directory, irregular, replace,
  last_state,
}
use dataporch.Token.{PersistedState, zero_verifier, Store}

pub record PersistedFile : Type 0 where
  pub version : ℕ
  pub verifier : Text
  pub created_at : Text
  pub rotated_at : Option Text

-- `json.Marshal`, and what the decoder reads where the text is one value without unknown fields.
pub record Json : Type 0 where
  pub marshal : PersistedFile → Result Text
  pub decode : Text → Option PersistedFile

-- `Format` of a time in UTC with RFC3339Nano, `Parse`, the suffix "Z" as a test, and the first time
-- whose year takes five digits.
pub record Calendar : Type 0 where
  pub year_10000 : ℕ
  pub format : ℕ → Text
  pub parse : Text → Option ℕ
  pub is_utc : Text → Bool

-- `validContext`, and what it leaves of the context.
unfoldable pub valid_context : Context → Checked
valid_context nil_context = err []
valid_context (context f) = elim (f 0) [ none ↦ ok tt | some s ↦ err (wraps s) ]

abbrev pub max_store_size : ℕ
max_store_size = 16384

abbrev pub file_permission : ℕ
file_permission = 384

-- `info.Mode().Perm()&0o077 == 0`.
abbrev pub is_private : ℕ → Bool
is_private permission = permission % 64 == 0

abbrev pub is_regular : FileKind → Bool
is_regular regular = true
is_regular _ = false

abbrev pub is_removable : FileKind → Bool
is_removable regular = true
is_removable symlink = true
is_removable _ = false

-- `rotated_at` precedes `created_at`.
abbrev pub precedes : Option ℕ → ℕ → Bool
precedes none t = false
precedes (some r) t = ltb r t

-- `os.Remove`: the file is removed, another process has removed it, or it stays.
pub data Removal : Type 0 where
  removed was_gone : Removal
  refused : Fault → Removal

module _ (json : Json) (calendar : Calendar) where
  unfoldable pub format_timestamp : ℕ → Result Text
  format_timestamp t = do require (not (t == 0)) (wraps store_corrupt); ok (calendar.format t)

  unfoldable pub format_optional_timestamp : Option ℕ → Result (Option Text)
  format_optional_timestamp none = ok none
  format_optional_timestamp (some t) = do s ← format_timestamp t; ok (some s)

  unfoldable pub parse_timestamp : Text → Result ℕ
  parse_timestamp s = do
    require (not (same s []) && calendar.is_utc s) []
    t ← or_fail (calendar.parse s) []
    require (not (t == 0)) []
    ok t

  unfoldable pub parse_optional_timestamp : Option Text → Result (Option ℕ)
  parse_optional_timestamp none = ok none
  parse_optional_timestamp (some s) = do t ← parse_timestamp s; ok (some t)

  unfoldable pub encode : PersistedState → Result Text
  encode p = do
    require (not (same p.verifier zero_verifier)) (wraps store_corrupt)
    created ← format_timestamp p.created_at
    rotated ← format_optional_timestamp p.rotated_at
    require (not (precedes p.rotated_at p.created_at)) (wraps store_corrupt)
    json.marshal (record {
      version = 1;
      verifier = Base64.encode p.verifier;
      created_at = created;
      rotated_at = rotated;
    })

  -- `decode` once the text is read.
  unfoldable pub check_file : PersistedFile → Result PersistedState
  check_file f = do
    require (f.version == 1) (wraps store_corrupt)
    verifier ← or_fail (Base64.decode f.verifier) (wraps store_corrupt)
    require (length verifier == 32 && same (Base64.encode verifier) f.verifier)
        (wraps store_corrupt)
    created ← or_else (parse_timestamp f.created_at) (λ e. wraps store_corrupt)
    rotated ← or_else (parse_optional_timestamp f.rotated_at) (λ e. wraps store_corrupt)
    require (not (precedes rotated created)) (wraps store_corrupt)
    ok (record { verifier = verifier; created_at = created; rotated_at = rotated })

  unfoldable pub decode : Text → Result PersistedState
  decode t = do f ← or_fail (json.decode t) (wraps store_corrupt); check_file f

  -- `Load` of a file that exists, after its first look at the context; `read` is what `os.ReadFile`
  -- fails with, if it does.
  unfoldable pub load_file : Checked → Context → StoredFile → Result (Option PersistedState)
  load_file read ctx f = do
    require (is_regular f.kind) (wraps store_corrupt)
    require (is_private f.permission) (wraps invalid_permissions)
    require (leb (length f.content) max_store_size) (wraps store_corrupt)
    valid_context ctx
    read
    valid_context (later ctx)
    p ← decode f.content
    ok (some p)

  -- `lstat` is what `os.Lstat` fails with, other than that there is no file.
  unfoldable pub load : Checked → Checked → Context → Directory → Result (Option PersistedState)
  load lstat read ctx d = do
    valid_context ctx
    lstat
    elim d.target [ none ↦ ok none | some f ↦ load_file read (later ctx) f ]

  -- `Save`, with what the calls on the files return.
  unfoldable pub save : Answers → Context → PersistedState → Directory → Checked × Directory
  save answers ctx p d = elim (valid_context ctx >> encode p) [
    | err e ↦ (err e, d)
    | ok written ↦ elim (valid_context (later ctx)) [
      | err e ↦ (err e, d)
      | ok u ↦ let r = replace answers written file_permission d in (r.0, last_state d r.1)
    ]
  ]

  -- `Delete`, with what `os.Lstat` fails with, as above, and what `os.Remove` answers.
  unfoldable pub delete : Checked → Removal → Context → Directory → Checked × Directory
  delete lstat outcome ctx d = elim (valid_context ctx >> lstat) [
    | err e ↦ (err e, d)
    | ok u ↦ elim d.target [
      | none ↦ (ok tt, d)
      | some f ↦
          elim (require (is_removable f.kind) (wraps store_corrupt) >> valid_context (later ctx)) [
            | err e ↦ (err e, d)
            | ok v ↦ elim outcome [
              | refused e ↦ (err e, d)
              | removed ↦ (ok tt, record d { target = none })
              | was_gone ↦ (ok tt, record d { target = none })
            ]
          ]
    ]
  ]
