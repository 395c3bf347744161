-- ===== src/Sqlite/Errors.antt =====
-- internal/connection/sqlite/query_error.go: the verdict that an error of SQLite leads to.
pub mod Laws
pub mod Answers
use dataporch.Prelude.{
  Bool, true, false, not, ◌||◌, ◌&&◌, List, [], ◌∷◌, ◌++◌, Option, none, some, any, if◌then◌else◌,
}
use dataporch.Text.{Text, bytes, same}
use dataporch.Fault.{
  Fault, Sentinel, sentinel, is, wraps, Context, nil_context, context, QueryContext, carries,
}
use dataporch.Fault.Database.{
  DatabaseError, DatabaseFailure, Category, plain_error, database_permission_denied,
  database_unavailable, invalid_query, read_only_violation, query_cancelled, database_conflict,
  database_resource_exhausted, database_error,
}
use dataporch.Execution.QueryErrors.{as_failure}
use dataporch.Diagnostics.{sqlite_diagnostic}
use dataporch.Sqlite.Codes.{
  ErrorCode, ExtendedErrorCode, primary_code_symbol, extended_code_symbol, code_error, code_perm,
  code_busy, code_locked, code_nomem, code_readonly, code_interrupt, code_ioerr, code_full,
  code_cantopen, code_toobig, code_mismatch, code_misuse, code_auth, code_range,
}

pub data ErrorPhase : Type 0 where
  open_phase prepare_phase step_phase close_phase : ErrorPhase

pub record ExtractedError : Type 0 where
  pub code : ErrorCode
  pub extended : ExtendedErrorCode
  pub message : Text

-- What package sqlite3 says of an error: the `*sqlite3.Error`, the extended code and the code that
-- `errors.As` finds in it, each with what its methods return; the code of an extended code, and whether
-- the extended code is just that code.
pub record Library : Type 0 where
  pub as_error : Fault → Option ExtractedError
  pub as_extended : Fault → Option ExtractedError
  pub as_code : Fault → Option ExtractedError
  pub code_of : ExtendedErrorCode → ErrorCode
  pub is_primary : ExtendedErrorCode → Bool

unfoldable pub extract_error : Library → Fault → Option ExtractedError
extract_error library e = elim (library.as_error e) [
  | some x ↦ some x
  | none ↦ elim (library.as_extended e) [ some x ↦ some x | none ↦ library.as_code e ]
]

unfoldable pub is_invalid_query_code : ErrorCode → Bool
is_invalid_query_code code_error = true
is_invalid_query_code code_range = true
is_invalid_query_code code_mismatch = true
is_invalid_query_code code_misuse = true
is_invalid_query_code _ = false

abbrev is_prepare : ErrorPhase → Bool
is_prepare prepare_phase = true
is_prepare _ = false

abbrev is_open : ErrorPhase → Bool
is_open open_phase = true
is_open _ = false

-- The switch of `sqliteErrorCategory`.
unfoldable pub code_category : ErrorCode → Category × Bool
code_category code_auth = (database_permission_denied, false)
code_category code_perm = (database_permission_denied, false)
code_category code_readonly = (read_only_violation, false)
code_category code_busy = (database_conflict, true)
code_category code_locked = (database_conflict, true)
code_category code_interrupt = (query_cancelled, false)
code_category code_cantopen = (database_unavailable, true)
code_category code_ioerr = (database_unavailable, true)
code_category code_toobig = (database_resource_exhausted, false)
code_category code_nomem = (database_resource_exhausted, false)
code_category code_full = (database_resource_exhausted, false)
code_category _ = (database_error, false)

unfoldable pub sqlite_error_category : ErrorCode → ErrorPhase → Category × Bool
sqlite_error_category code phase =
    if is_prepare phase && is_invalid_query_code code
    then (invalid_query, false)
    else code_category code

unfoldable pub sqlite_report : Library → ExtractedError → ErrorPhase → DatabaseError
sqlite_report library x phase =
    let extended = extended_code_symbol library.code_of library.is_primary x.extended in
    let primary = primary_code_symbol x.code in
    let message =
      if is_open phase
      then bytes "SQLite database setup failed."
      else sqlite_diagnostic x.message in
    record (plain_error (bytes "sqlite") primary message) {
      extended_code =
          if not (same extended primary) && not (same extended (bytes "SQLITE_UNKNOWN"))
          then extended
          else [];
    }

-- `classifySQLiteError`.
unfoldable pub classify_sqlite_error : Library → ExtractedError → ErrorPhase → DatabaseFailure
classify_sqlite_error library x phase =
    let c = sqlite_error_category x.code phase in
    record {
      category = c.0;
      retryable = c.1;
      database_error = some (sqlite_report library x phase);
    }

-- The answer to an error that is none of SQLite's.
abbrev pub unknown_failure : DatabaseFailure
unknown_failure = record {
  category = database_error;
  retryable = false;
  database_error = some (
      plain_error (bytes "sqlite") (bytes "SQLITE_UNKNOWN")
        (bytes "SQLite database operation failed."));
}

unfoldable pub is_discovery_sentinel : Fault → Bool
is_discovery_sentinel e = any (is e) (
    Sentinel.schema_not_found ∷ Sentinel.relation_not_found ∷ Sentinel.unsupported_relation_kind
    ∷ Sentinel.internal ∷ [])

-- The list of `isKnownQueryError`.
abbrev pub known_query_errors : List Sentinel
known_query_errors =
    Sentinel.invalid_request ∷ Sentinel.invalid_query ∷ Sentinel.read_only_violation
    ∷ Sentinel.query_cancelled ∷ Sentinel.result_too_large ∷ Sentinel.cancelled
    ∷ Sentinel.query_timeout ∷ Sentinel.database_permission_denied ∷ Sentinel.database_conflict
    ∷ Sentinel.database_unavailable ∷ Sentinel.database_resource_exhausted ∷ Sentinel.database_error
    ∷ Sentinel.internal ∷ []

unfoldable pub is_known_query_error : Fault → Bool
is_known_query_error e = any (is e) known_query_errors

unfoldable pub has_sqlite_error : Library → Fault → Bool
has_sqlite_error library e = elim (extract_error library e) [ none ↦ false | some x ↦ true ]

unfoldable pub is_projected_sqlite_error : Fault → Bool
is_projected_sqlite_error e = elim (as_failure e) [ none ↦ false | some f ↦ true ]

-- What the request's context turns an error into, if it has ended.
unfoldable pub request_error : Context → Option Fault
request_error nil_context = none
request_error (context f) = elim (f 0) [
  | none ↦ none
  | some s ↦
      if is (wraps s) Sentinel.canceled
      then some (sentinel Sentinel.cancelled ∷ wraps Sentinel.canceled)
      else if is (wraps s) Sentinel.deadline_exceeded
      then some (sentinel Sentinel.query_timeout ∷ wraps Sentinel.deadline_exceeded)
      else none
]

-- Which error value the cause of the query's context adds to an error.
unfoldable pub cause_ending : Option Fault → Option Sentinel
cause_ending none = none
cause_ending (some cause) =
    if is cause Sentinel.query_timeout
    then some Sentinel.query_timeout
    else if is cause Sentinel.canceled
    then some Sentinel.query_cancelled
    else none

-- Which one its `Err` adds.
unfoldable pub err_ending : Option Sentinel → Option Sentinel
err_ending none = none
err_ending (some s) =
    if is (wraps s) Sentinel.deadline_exceeded
    then some Sentinel.query_timeout
    else if is (wraps s) Sentinel.canceled
    then some Sentinel.query_cancelled
    else none

unfoldable pub query_ending : Option QueryContext → Option Sentinel
query_ending none = none
query_ending (some q) = elim (cause_ending q.cause) [ some s ↦ some s | none ↦ err_ending q.ended ]

-- `projectSQLiteContextError`.
unfoldable pub project_context_error : Context → Option QueryContext → Fault → Option Fault
project_context_error requested query e = elim (request_error requested) [
  | some x ↦ some x
  | none ↦ elim (query_ending query) [ some s ↦ some (sentinel s ∷ e) | none ↦ none ]
]

-- `projectSQLiteError` once the contexts have not decided.
unfoldable pub project_live_error : Library → Fault → ErrorPhase → Fault
project_live_error library e phase =
    if (is_projected_sqlite_error e || is_known_query_error e) && not (has_sqlite_error library e)
    then e
    else if is e Sentinel.sqlite_file_unavailable
        || is e Sentinel.runtime_unavailable
        || is e Sentinel.runtime_closed
    then wraps Sentinel.database_unavailable
    else elim (extract_error library e) [
      | none ↦ carries unknown_failure
      | some x ↦ carries (classify_sqlite_error library x phase)
    ]

unfoldable pub project_sqlite_error :
    Library → Context → Option QueryContext → Fault → ErrorPhase → Fault
project_sqlite_error library requested query e phase =
    elim (project_context_error requested query e) [
      | some x ↦ x
      | none ↦ project_live_error library e phase
    ]

unfoldable pub project_discovery_error :
    Library → Context → Option QueryContext → Fault → ErrorPhase → Fault
project_discovery_error library requested query e phase =
    if is_discovery_sentinel e && not (has_sqlite_error library e)
    then e
    else project_sqlite_error library requested query e
        (if is_prepare phase then step_phase else phase)
