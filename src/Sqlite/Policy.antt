-- ===== src/Sqlite/Policy.antt =====
-- internal/connection/sqlite/policy.go: what a statement may do, and how a connection is secured before
-- it is used.
pub mod Laws
use dataporch.Prelude.{
  ℕ, Bool, true, false, not, ◌||◌, ◌&&◌, List, [], ◌∷◌, Option, none, some, if◌then◌else◌, any,
}
use dataporch.Text.{Text, bytes, same, has_prefix}
use dataporch.Text.Words.{trim_space}
use dataporch.Fault.{
  Fault, Checked, Result, ok, err, wraps, require, or_else, ◌>>=◌, ◌>>◌, sqlite_file_unavailable,
}

pub data AccessMode : Type 0 where
  discovery query : AccessMode

-- `sqlite3.AuthorizerActionCode`: the actions that the code names, and every other one.
pub data Action : Type 0 where
  select recursive read function pragma : Action
  other_action : ℕ → Action

pub data Verdict : Type 0 where
  allow deny : Verdict

abbrev is_query : AccessMode → Bool
is_query discovery = false
is_query query = true

unfoldable pub is_denied_function : Text → Bool
is_denied_function name =
    any (same name)
      (bytes "load_extension" ∷ bytes "readfile" ∷ bytes "writefile" ∷ bytes "fsdir" ∷ [])

-- The switch of `functionAllowed`.
unfoldable pub is_discovery_function : Text → Bool
is_discovery_function name = any (same name) (
    bytes "lower"
    ∷ bytes "instr"
    ∷ bytes "like"
    ∷ bytes "pragma_table_list"
    ∷ bytes "pragma_table_xinfo"
    ∷ bytes "pragma_index_list"
    ∷ bytes "pragma_index_xinfo"
    ∷ bytes "pragma_foreign_key_list"
    ∷ [])

-- `to_lower` is `strings.ToLower`.
module _ (to_lower : Text → Text) where
  unfoldable pub function_allowed : AccessMode → Text → Bool
  function_allowed mode spelled =
      let name = to_lower (trim_space spelled) in
      if same name [] || is_denied_function name
      then false
      else if is_query mode
      then not (has_prefix name (bytes "pragma_"))
      else is_discovery_function name

  unfoldable pub pragma_allowed : Text → Bool
  pragma_allowed name = any (same (to_lower (trim_space name))) (
      bytes "table_list"
      ∷ bytes "table_xinfo"
      ∷ bytes "index_list"
      ∷ bytes "index_xinfo"
      ∷ bytes "foreign_key_list"
      ∷ [])

  unfoldable pub authorize : AccessMode → Action → Text → Text → Text → Text → Verdict
  authorize mode select name3rd name4th schema inner = allow
  authorize mode recursive name3rd name4th schema inner = allow
  authorize mode read name3rd name4th schema inner =
      if same schema [] || same schema (bytes "main") then allow else deny
  authorize mode function name3rd name4th schema inner =
      if function_allowed mode name4th then allow else deny
  authorize mode pragma name3rd name4th schema inner =
      if not (is_query mode) && pragma_allowed name3rd then allow else deny
  authorize mode (other_action n) name3rd name4th schema inner = deny

-- The options of `sqlite3.Conn.Config` that the code names.
pub data ConfigOption : Type 0 where
  dbconfig_defensive dbconfig_trusted_schema : ConfigOption

-- What `configureConnection` asks of a connection, with the arguments; the authorizer is `authorize` in
-- a mode.
pub data Request : Type 0 where
  config : ConfigOption → Bool → Request
  exec : Text → Request
  validate : Request
  set_authorizer : AccessMode → Request

abbrev pub set_defensive : Request
set_defensive = config dbconfig_defensive true

abbrev pub set_untrusted : Request
set_untrusted = config dbconfig_trusted_schema false

abbrev pub set_query_only : Request
set_query_only = exec (bytes "PRAGMA query_only=ON")

-- How the connection answers: the flag that is in force after `Config`, and errors.
pub record Conn : Type 0 where
  pub defensive : Result Bool
  pub trusted_schema : Result Bool
  pub exec_query_only : Checked
  pub validated : Checked
  pub authorizer : Checked

-- The requests that were made are listed, the last one first.
unfoldable pub configure_connection : Conn → AccessMode → Checked × List Request
configure_connection conn mode = elim conn.defensive [
  | err e ↦ (err e, set_defensive ∷ [])
  | ok is_defensive ↦
      if not is_defensive
      then (err (wraps sqlite_file_unavailable), set_defensive ∷ [])
      else elim conn.trusted_schema [
        | err e ↦ (err e, set_untrusted ∷ set_defensive ∷ [])
        | ok is_trusted ↦
            if is_trusted
            then (err (wraps sqlite_file_unavailable), set_untrusted ∷ set_defensive ∷ [])
            else elim conn.exec_query_only [
              | err e ↦ (err e, set_query_only ∷ set_untrusted ∷ set_defensive ∷ [])
              | ok u ↦ elim conn.validated [
                | err e ↦ (err e, validate ∷ set_query_only ∷ set_untrusted ∷ set_defensive ∷ [])
                | ok v ↦ (
                  conn.authorizer,
                  set_authorizer mode
                      ∷ validate
                      ∷ set_query_only
                      ∷ set_untrusted
                      ∷ set_defensive
                      ∷ [],
                )
              ]
            ]
      ]
]
