-- ===== src/Execution/QueryErrors.antt =====
-- internal/execution/query_errors.go: the public failure that an error of a query leads to.
pub mod Laws
pub mod Foreign
use dataporch.Prelude.{
  Bool, true, false, not, ◌&&◌, ◌||◌, List, [], ◌∷◌, Option, none, some, if◌then◌else◌,
}
use dataporch.Text.{Text, bytes, same, has_prefix}
use dataporch.Fault.{
  Fault, Sentinel, Leaf, sentinel, failure, database, foreign, is, Context, nil_context, context,
}
use dataporch.Fault
use dataporch.Fault.Database.{
  DatabaseError, DatabaseFailure, Category, invalid_request, source_not_found,
  dataporch_access_denied, database_permission_denied, database_unavailable, query_timeout,
  cancelled, internal, source_kind_mismatch, invalid_query, read_only_violation, query_cancelled,
  result_too_large, database_authentication_failed, database_conflict, database_resource_exhausted,
  database_error,
}
use dataporch.Execution.Errors.{Failure, no_failure}

-- The table of `relationalQueryFailure`; a missing key reads as the empty text.
unfoldable pub query_message_of : Category → Text
query_message_of invalid_request = bytes "The query request is invalid."
query_message_of source_not_found = bytes "The data source was not found."
query_message_of source_kind_mismatch =
    bytes "The requested database kind does not match the data source."
query_message_of dataporch_access_denied = bytes "DataPorch query access was denied."
query_message_of invalid_query = bytes "The query is invalid or does not return columns."
query_message_of database_permission_denied = bytes "The database denied query access."
query_message_of read_only_violation = bytes "The query violates the read-only transaction."
query_message_of query_cancelled = bytes "The database cancelled the query."
query_message_of query_timeout = bytes "The query timed out."
query_message_of result_too_large = bytes "The encoded query result is too large."
query_message_of database_authentication_failed = bytes "Database authentication failed."
query_message_of database_conflict = bytes "The query conflicted with concurrent database work."
query_message_of database_unavailable = bytes "The database is unavailable."
query_message_of database_resource_exhausted =
    bytes "The database exhausted a resource while running the query."
query_message_of database_error = bytes "The database rejected the query."
query_message_of cancelled = bytes "The request was cancelled."
query_message_of internal = bytes "The query operation failed safely."
query_message_of _ = []

unfoldable pub is_query_retryable : Category → Bool
is_query_retryable database_unavailable = true
is_query_retryable database_conflict = true
is_query_retryable _ = false

-- `relationalQueryFailure`, whose every call has no database error.
unfoldable pub query_failure : Category → Failure
query_failure c = record {
  category = some c;
  message = query_message_of c;
  retryable = is_query_retryable c;
  database_error = none;
}

-- The message of `databaseFailure`.
unfoldable pub database_message : Option DatabaseError → Text
database_message none = bytes "The database rejected the query."
database_message (some e) =
    if same e.message [] then bytes "The database rejected the query." else e.message

-- `databaseFailure`.
unfoldable pub database_failure : Category → Bool → Option DatabaseError → Failure
database_failure c retryable e = record {
  category = some c;
  message = database_message e;
  retryable = retryable;
  database_error = e;
}

-- The cases of `classifyDatabaseError` for a SQLSTATE of PostgreSQL, in their order: the category,
-- and whether to try again.
unfoldable pub sqlstate : Text → Category × Bool
sqlstate code =
    if same code (bytes "42501")
    then (database_permission_denied, false)
    else if same code (bytes "25006") || same code (bytes "2F002") || same code (bytes "38002")
    then (read_only_violation, false)
    else if same code (bytes "57014")
    then (query_cancelled, false)
    else if same code (bytes "25P03") || same code (bytes "25P04")
    then (query_timeout, false)
    else if has_prefix code (bytes "28")
    then (database_authentication_failed, false)
    else if same code (bytes "40001") || same code (bytes "40P01") || same code (bytes "55P03")
    then (database_conflict, true)
    else if has_prefix code (bytes "08")
    then (database_unavailable, true)
    else if same code (bytes "57P01")
        || same code (bytes "57P02")
        || same code (bytes "57P03")
        || same code (bytes "57P04")
    then (database_unavailable, true)
    else if has_prefix code (bytes "58")
    then (database_unavailable, true)
    else if same code (bytes "53300")
    then (database_unavailable, true)
    else if has_prefix code (bytes "53") || has_prefix code (bytes "54")
    then (database_resource_exhausted, false)
    else if has_prefix code (bytes "21")
        || has_prefix code (bytes "22")
        || has_prefix code (bytes "42")
        || has_prefix code (bytes "0A")
        || has_prefix code (bytes "3D")
        || has_prefix code (bytes "3F")
    then (invalid_query, false)
    else (database_error, false)

-- `classifyDatabaseError`; the pointer that it is given is not nil.
unfoldable pub classify_database_error : DatabaseError → Failure
classify_database_error e =
    if same e.kind (bytes "postgres")
    then database_failure (sqlstate e.code).0 (sqlstate e.code).1 (some e)
    else database_failure database_error false (some e)

-- `errors.As` to a `*DatabaseFailure`, and to a `*DatabaseError`: the first in the tree.
unfoldable pub as_failure : Fault → Option DatabaseFailure
as_failure [] = none
as_failure (failure f ∷ rest) = some f
as_failure (sentinel s ∷ rest) = as_failure rest
as_failure (database e ∷ rest) = as_failure rest
as_failure (foreign n ∷ rest) = as_failure rest

unfoldable pub as_database_error : Fault → Option DatabaseError
as_database_error [] = none
as_database_error (database e ∷ rest) = some e
as_database_error (sentinel s ∷ rest) = as_database_error rest
as_database_error (failure f ∷ rest) = as_database_error rest
as_database_error (foreign n ∷ rest) = as_database_error rest

-- The switch at the end of `ClassifyRelationalQuery`, in its order.
unfoldable pub query_category_of : Fault → Category
query_category_of e =
    if is e Sentinel.invalid_request || is e Sentinel.invalid_limit
    then invalid_request
    else if is e Sentinel.source_not_found
    then source_not_found
    else if is e Sentinel.source_kind_mismatch
    then source_kind_mismatch
    else if is e Sentinel.dataporch_access_denied
    then dataporch_access_denied
    else if is e Sentinel.invalid_query
    then invalid_query
    else if is e Sentinel.read_only_violation
    then read_only_violation
    else if is e Sentinel.query_cancelled
    then query_cancelled
    else if is e Sentinel.query_timeout || is e Sentinel.deadline_exceeded
    then query_timeout
    else if is e Sentinel.cancelled || is e Sentinel.canceled
    then cancelled
    else if is e Sentinel.database_permission_denied
    then database_permission_denied
    else if is e Sentinel.database_authentication_failed
    then database_authentication_failed
    else if is e Sentinel.database_conflict
    then database_conflict
    else if is e Sentinel.database_unavailable
    then database_unavailable
    else if is e Sentinel.database_resource_exhausted
    then database_resource_exhausted
    else if is e Sentinel.database_error
    then database_error
    else internal

-- `ClassifyRelationalQuery` once the context has not decided.
unfoldable pub classify_query_error : Fault → Failure
classify_query_error e =
    if is e Sentinel.result_too_large then query_failure result_too_large else elim (as_failure e) [
      | some f ↦ database_failure f.category f.retryable f.database_error
      | none ↦ elim (as_database_error e) [
        | some d ↦ classify_database_error d
        | none ↦ query_failure (query_category_of e)
      ]
    ]

-- The switch on `ctx.Err()`: what the context decides, if it does.
unfoldable pub context_category : Context → Option Category
context_category nil_context = none
context_category (context f) = elim (f 0) [
  | none ↦ none
  | some s ↦
      if is (sentinel s ∷ []) Sentinel.canceled
      then some cancelled
      else if is (sentinel s ∷ []) Sentinel.deadline_exceeded
      then some query_timeout
      else none
]

-- `ClassifyRelationalQuery`.
unfoldable pub classify_query : Context → Option Fault → Failure
classify_query ctx none = no_failure
classify_query ctx (some e) = elim (context_category ctx) [
  | some c ↦ query_failure c
  | none ↦ classify_query_error e
]
