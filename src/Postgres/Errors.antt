-- ===== src/Postgres/Errors.antt =====
-- internal/connection/postgres/query_error.go and the errors of internal/connection/postgres/opener.go:
-- what a query and a discovery are told when PostgreSQL cannot be reached or refuses them.
pub mod Laws
use dataporch.Prelude.{ℕ, Bool, true, false, ◌||◌, [], ◌∷◌, ◌++◌, Option, none, some, if◌then◌else◌}
use dataporch.Text.{Text, bytes}
use dataporch.Fault.{
  Fault, Sentinel, sentinel, database, is, wraps, Context, nil_context, context, Result, ok, err,
}
use dataporch.Fault.Database.{DatabaseError}
use dataporch.Execution.QueryErrors.{as_database_error}

-- `pgconn.PgError`, its fields that the code reads.
pub record PgError : Type 0 where
  pub severity : Text
  pub severity_unlocalized : Text
  pub code : Text
  pub message : Text
  pub detail : Text
  pub hint : Text
  pub position : ℕ
  pub internal_position : ℕ
  pub internal_query : Text
  pub where_text : Text
  pub schema_name : Text
  pub table_name : Text
  pub column_name : Text
  pub data_type_name : Text
  pub constraint_name : Text
  pub file : Text
  pub line : ℕ
  pub routine : Text

-- What package pgconn says of an error: the `*pgconn.PgError` that `errors.As` finds in it, and
-- `pgconn.SafeToRetry`.
pub record Driver : Type 0 where
  pub as_pg : Fault → Option PgError
  pub safe_to_retry : Fault → Bool

unfoldable pub project_postgres_error : PgError → DatabaseError
project_postgres_error e = record {
  kind = bytes "postgres";
  code = e.code;
  extended_code = [];
  severity = e.severity;
  severity_unlocalized = e.severity_unlocalized;
  message = e.message;
  truncated = false;
  detail = e.detail;
  hint = e.hint;
  position = e.position;
  internal_position = e.internal_position;
  internal_query = e.internal_query;
  where_text = e.where_text;
  schema_name = e.schema_name;
  table_name = e.table_name;
  column_name = e.column_name;
  data_type_name = e.data_type_name;
  constraint_name = e.constraint_name;
  file = e.file;
  line = e.line;
  routine = e.routine;
}

-- The classification in `projectRelationalQueryError`.
unfoldable pub classification : Driver → Fault → Sentinel
classification driver e =
    if is e Sentinel.canceled
    then Sentinel.cancelled
    else if is e Sentinel.deadline_exceeded
    then Sentinel.query_timeout
    else if is e Sentinel.open_timeout
        || is e Sentinel.runtime_closed
        || is e Sentinel.open_invalidated
        || is e Sentinel.database_not_found
        || is e Sentinel.connection_unavailable
    then Sentinel.database_unavailable
    else if driver.safe_to_retry e
    then Sentinel.database_unavailable
    else Sentinel.internal

unfoldable pub project_relational_query_error : Driver → Fault → Fault
project_relational_query_error driver e = elim (as_database_error e) [
  | some d ↦ e
  | none ↦ elim (driver.as_pg e) [
    | some p ↦ database (project_postgres_error p) ∷ []
    | none ↦ sentinel (classification driver e) ∷ e
  ]
]

-- `unavailableError`, `classifiedError` and `unavailableContextError`.
abbrev unavailable_error : Fault
unavailable_error = wraps Sentinel.connection_unavailable

abbrev classified_error : Sentinel → Fault
classified_error specific = sentinel Sentinel.connection_unavailable ∷ wraps specific

-- `discoveryOpenError` once the context has not decided.
unfoldable pub open_error : Fault → Fault
open_error e =
    if is e Sentinel.open_timeout
    then classified_error Sentinel.open_timeout
    else if is e Sentinel.unsupported_kind
    then classified_error Sentinel.unsupported_kind
    else if is e Sentinel.runtime_closed
    then wraps Sentinel.runtime_closed
    else if is e Sentinel.open_invalidated
    then unavailable_error
    else if is e Sentinel.database_not_found
    then classified_error Sentinel.database_not_found
    else unavailable_error

unfoldable pub discovery_open_error : Context → Fault → Fault
discovery_open_error nil_context e = unavailable_error
discovery_open_error (context f) e = elim (f 0) [
  | some s ↦ classified_error s
  | none ↦ open_error e
]
