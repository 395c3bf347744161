-- ===== src/Mysql/Errors.antt =====
-- internal/connection/mysql/query_error.go: the verdict that an error of the MySQL driver leads to.
pub mod Laws
use dataporch.Prelude.{
  ℕ, Bool, true, false, ◌||◌, List, [], ◌∷◌, ◌++◌, Option, none, some, any, if◌then◌else◌, ◌==◌,
}
use dataporch.Text.{Text, bytes, same, has_prefix, contains}
use dataporch.Text.Decimal.{digits}
use dataporch.Fault.{
  Fault, Sentinel, sentinel, is, wraps, Context, nil_context, context, QueryContext, carries,
}
use dataporch.Fault.Database.{
  DatabaseError, DatabaseFailure, Category, plain_error, database_permission_denied,
  database_unavailable, query_timeout, invalid_query, read_only_violation, query_cancelled,
  database_authentication_failed, database_conflict, database_resource_exhausted, database_error,
}
use dataporch.Execution.QueryErrors.{as_failure}
use dataporch.Diagnostics.{mysql_diagnostic}

-- `gomysql.MySQLError`; the state is five bytes.
pub record MysqlError : Type 0 where
  pub number : ℕ
  pub sql_state : Text
  pub message : Text

-- The errors of package syscall that the code names.
pub data Errno : Type 0 where
  econnrefused econnreset econnaborted epipe : Errno

-- What the code asks of an error through other packages: whether `errors.As` finds an error of the
-- driver in it, whether it is `driver.ErrBadConn`, holds a `net.Error`, or is one of these of package
-- syscall, and its text in lower case. `to_upper` is `strings.ToUpper`.
pub record Driver : Type 0 where
  pub as_mysql : Fault → Option MysqlError
  pub is_bad_conn : Fault → Bool
  pub is_network_error : Fault → Bool
  pub is_errno : Errno → Fault → Bool
  pub lower_text : Fault → Text
  pub to_upper : Text → Text

unfoldable pub mysql_sql_state : Text → Text
mysql_sql_state state = if same state (0 ∷ 0 ∷ 0 ∷ 0 ∷ 0 ∷ []) then [] else state

-- `projectMySQLError`, where the pointer is not nil.
unfoldable pub project_mysql_error : MysqlError → DatabaseError
project_mysql_error e =
    record (plain_error (bytes "mysql") (digits e.number) (mysql_diagnostic e.message)) {
      extended_code = mysql_sql_state e.sql_state;
    }

-- The second switch of `mysqlErrorCategory`.
unfoldable pub state_category : Text → Category × Bool
state_category state =
    if same state (bytes "25006")
    then (read_only_violation, false)
    else if has_prefix state (bytes "08")
    then (database_unavailable, true)
    else if has_prefix state (bytes "21")
        || has_prefix state (bytes "22")
        || has_prefix state (bytes "42")
        || has_prefix state (bytes "0A")
        || has_prefix state (bytes "3D")
        || has_prefix state (bytes "3F")
    then (invalid_query, false)
    else (database_error, false)

unfoldable pub mysql_error_category : Driver → ℕ → Text → Category × Bool
mysql_error_category driver number state =
    if number == 1045
    then (database_authentication_failed, false)
    else if number == 1044 || number == 1142 || number == 1143 || number == 1227
    then (database_permission_denied, false)
    else if number == 1792
    then (read_only_violation, false)
    else if number == 1317
    then (query_cancelled, false)
    else if number == 3024
    then (query_timeout, false)
    else if number == 1213 || number == 1205
    then (database_conflict, true)
    else if number == 1040
    then (database_unavailable, true)
    else if number == 1041 || number == 1037 || number == 1114
    then (database_resource_exhausted, false)
    else state_category (driver.to_upper state)

-- The list of `isMySQLKnownError`.
abbrev pub known_errors : List Sentinel
known_errors =
    Sentinel.schema_not_found ∷ Sentinel.relation_not_found ∷ Sentinel.unsupported_relation_kind
    ∷ Sentinel.internal ∷ Sentinel.cancelled ∷ Sentinel.query_timeout ∷ Sentinel.query_cancelled
    ∷ Sentinel.database_permission_denied ∷ Sentinel.database_unavailable
    ∷ Sentinel.database_conflict ∷ Sentinel.database_resource_exhausted ∷ Sentinel.invalid_query
    ∷ Sentinel.read_only_violation ∷ Sentinel.database_authentication_failed
    ∷ Sentinel.database_error ∷ Sentinel.runtime_context_required ∷ Sentinel.runtime_invalid_id
    ∷ Sentinel.unsupported_kind ∷ []

unfoldable pub is_mysql_known_error : Fault → Bool
is_mysql_known_error e = any (is e) known_errors

unfoldable pub is_mysql_projected_error : Fault → Bool
is_mysql_projected_error e = elim (as_failure e) [ none ↦ false | some f ↦ true ]

-- The tests of `isMySQLUnavailableError` on errors of other packages: by value, by type, by text.
unfoldable pub is_unreachable : Driver → Fault → Bool
is_unreachable driver e =
    driver.is_bad_conn e
    || driver.is_network_error e
    || any (λ n. driver.is_errno n e) (econnrefused ∷ econnreset ∷ econnaborted ∷ epipe ∷ [])
    || contains (driver.lower_text e) (bytes "connection refused")
    || contains (driver.lower_text e) (bytes "dial tcp")

unfoldable pub is_mysql_unavailable_error : Driver → Fault → Bool
is_mysql_unavailable_error driver e =
    is e Sentinel.open_timeout
    || is e Sentinel.runtime_closed
    || is e Sentinel.open_invalidated
    || is_unreachable driver e

-- `wrapMySQLClassification`, where the cause is not nil: an error that is both.
abbrev wrap_mysql_classification : Sentinel → Fault → Fault
wrap_mysql_classification s cause = sentinel s ∷ cause

-- The verdict on an error of the driver.
unfoldable pub mysql_failure : Driver → MysqlError → DatabaseFailure
mysql_failure driver m =
    let c = mysql_error_category driver m.number (mysql_sql_state m.sql_state) in
    record { category = c.0; retryable = c.1; database_error = some (project_mysql_error m) }

unfoldable pub project_without_context : Driver → Fault → Fault
project_without_context driver e =
    if is_mysql_projected_error e || is_mysql_known_error e then e else elim (driver.as_mysql e) [
      | some m ↦ carries (mysql_failure driver m) ++ e
      | none ↦
          if is_mysql_unavailable_error driver e
          then wrap_mysql_classification Sentinel.database_unavailable e
          else if is e Sentinel.canceled
          then wrap_mysql_classification Sentinel.cancelled e
          else if is e Sentinel.deadline_exceeded
          then wrap_mysql_classification Sentinel.query_timeout e
          else wrap_mysql_classification Sentinel.internal e
    ]

-- What the request's context decides, if it does.
unfoldable pub request_verdict : Context → Option Sentinel
request_verdict nil_context = none
request_verdict (context f) = elim (f 0) [
  | none ↦ none
  | some s ↦
      if is (wraps s) Sentinel.canceled
      then some Sentinel.cancelled
      else if is (wraps s) Sentinel.deadline_exceeded
      then some Sentinel.query_timeout
      else none
]

-- What the cause of the query's context decides.
unfoldable pub cause_verdict : Option Fault → Option Sentinel
cause_verdict none = none
cause_verdict (some cause) =
    if is cause Sentinel.query_timeout || is cause Sentinel.deadline_exceeded
    then some Sentinel.query_timeout
    else if is cause Sentinel.query_cancelled || is cause Sentinel.canceled
    then some Sentinel.query_cancelled
    else none

-- What its `Err` decides.
unfoldable pub ended_verdict : Option Sentinel → Option Sentinel
ended_verdict none = none
ended_verdict (some s) =
    if is (wraps s) Sentinel.deadline_exceeded
    then some Sentinel.query_timeout
    else if is (wraps s) Sentinel.canceled
    then some Sentinel.query_cancelled
    else none

unfoldable pub query_verdict : Option QueryContext → Option Sentinel
query_verdict none = none
query_verdict (some q) = elim (cause_verdict q.cause) [
  | some s ↦ some s
  | none ↦ ended_verdict q.ended
]

-- `projectMySQLQueryError`.
unfoldable pub project_mysql_query_error : Driver → Context → Option QueryContext → Fault → Fault
project_mysql_query_error driver requested query e = elim (request_verdict requested) [
  | some s ↦ wrap_mysql_classification s e
  | none ↦ elim (query_verdict query) [
    | some s ↦ wrap_mysql_classification s e
    | none ↦ project_without_context driver e
  ]
]
