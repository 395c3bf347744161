-- ===== src/Postgres/Query.antt =====
-- internal/connection/postgres/query.go: one query on one connection. What is done to the connection is a list of events, the last one first.
pub mod Sessions
pub mod Answers
use dataporch.Prelude.{
  ℕ, zero, suc, Bool, true, false, not, ◌||◌, ◌&&◌, List, [], ◌∷◌, ◌++◌, Option, none, some,
  if◌then◌else◌, any, ℤ, pos, negsuc,
}
use dataporch.Text.{Text, bytes, same}
use dataporch.Text.Utf8.{is_blank}
use dataporch.Fault.{
  Fault, Checked, Sentinel, Result, ok, err, wraps, sentinel, is, ◌>>=◌, ◌>>◌, require, or_else,
  Context, nil_context, context, later,
}
use dataporch.Execution.Types.{RelationalQueryExecutionRequest, RelationalQueryResult}
use dataporch.Execution.QueryErrors.{as_database_error}
use dataporch.Postgres.Budget.{Marshal}
use dataporch.Postgres.Rows.{Rows, Limits, read_result}
use dataporch.Postgres.Errors.{Driver, project_relational_query_error}

-- `QueryOptions`; a duration is its number of nanoseconds.
pub record QueryOptions : Type 0 where
  pub timeout : ℤ
  pub response_byte_limit : ℤ
  pub truncation_enabled : Bool
  pub row_limit : ℤ

unfoldable pub is_positive : ℤ → Bool
is_positive (pos zero) = false
is_positive (pos (suc n)) = true
is_positive (negsuc n) = false

abbrev magnitude : ℤ → ℕ
magnitude (pos n) = n
magnitude (negsuc n) = 0

-- `newQueryExecutor`, for an opener that is not nil and the default cleanup timeout: the limits of
-- the executor.
unfoldable pub new_query_executor : QueryOptions → Result Limits
new_query_executor options = do
  require (is_positive options.timeout) []
  require (is_positive options.response_byte_limit) []
  require (not (options.truncation_enabled && not (is_positive options.row_limit))) []
  ok (record {
    byte_limit = magnitude options.response_byte_limit;
    truncate = options.truncation_enabled;
    row_limit = magnitude options.row_limit;
  })

-- The access modes of `pgx.TxOptions`; without one, the session's default counts.
pub data AccessMode : Type 0 where
  unspecified read_only read_write : AccessMode

-- The modes of `pgx.QueryExecMode`.
pub data ExecMode : Type 0 where
  cache_statement cache_describe describe_exec exec simple_protocol : ExecMode

-- What is done with a connection of the pool: `BeginTx` with its access mode, `Query` with its mode and
-- text. `BeginTx` and the steps of the cleanup say whether they succeeded.
pub data Event : Type 0 where
  acquired released destroyed : Event
  began : AccessMode → Bool → Event
  ran : ExecMode → Text → Event
  rolled_back deallocated discarded : Bool → Event

abbrev pub Log : Type 0
Log = List Event

-- What `OpenQuery` hands out: no client or one without a pool, a pool that takes no queries, or a
-- pool that does.
pub data Opened : Type 0 where
  missing unsuitable ready : Opened

-- What a query meets: what each call returns, where an interface that is nil is `false`; the error
-- of the rows that come with an error; and the answers of `Err` of the query's context, to
-- `executionError` and to the reading.
pub record World : Type 0 where
  pub opened : Result Opened
  pub connection : Result Bool
  pub transaction : Result Bool
  pub rows : Result (Option Rows)
  pub broken_rows : Fault
  pub rollback : Checked
  pub deallocate_all : Checked
  pub discard_all : Checked
  pub destroy : Checked
  pub type_name : ℕ → Option Text
  pub query_ended : Option Sentinel
  pub reading : Context

-- The list `known` of `executionError`.
abbrev pub known_errors : List Sentinel
known_errors =
    Sentinel.invalid_request ∷ Sentinel.invalid_query ∷ Sentinel.read_only_violation
    ∷ Sentinel.query_cancelled ∷ Sentinel.result_too_large ∷ Sentinel.cancelled
    ∷ Sentinel.query_timeout ∷ Sentinel.database_permission_denied
    ∷ Sentinel.database_authentication_failed ∷ Sentinel.database_conflict
    ∷ Sentinel.database_unavailable ∷ Sentinel.database_resource_exhausted ∷ Sentinel.database_error
    ∷ Sentinel.internal ∷ []

-- What the request's context makes of an error, if it has ended.
unfoldable pub request_error : Context → Option Fault
request_error nil_context = none
request_error (context f) = elim (f 0) [
  | none ↦ none
  | some s ↦
      if is (wraps s) Sentinel.canceled
      then some (sentinel Sentinel.cancelled ∷ wraps Sentinel.canceled)
      else if is (wraps s) Sentinel.deadline_exceeded
      then some (sentinel Sentinel.query_timeout ∷ wraps Sentinel.deadline_exceeded)
      else none
]

unfoldable pub has_ended : Option Sentinel → Bool
has_ended none = false
has_ended (some s) = is (wraps s) Sentinel.deadline_exceeded

unfoldable pub reports : Fault → Bool
reports e = elim (as_database_error e) [ none ↦ false | some d ↦ true ]

unfoldable pub execution_error : Driver → Context → World → Fault → Fault
execution_error driver requested w e = elim (request_error requested) [
  | some x ↦ x
  | none ↦
      if has_ended w.query_ended
      then sentinel Sentinel.query_timeout ∷ e
      else if reports e || any (is e) known_errors
      then e
      else project_relational_query_error driver e
]

-- `errors.Join` of an error and what a call returns.
abbrev join_error : Fault → Checked → Fault
join_error e (ok u) = e
join_error e (err x) = e ++ x

-- The end of `cleanup`, where a step of it has failed.
unfoldable pub destroy_connection : Driver → World → Fault → Log → Option Fault × Log
destroy_connection driver w e log =
    let joined = join_error e w.destroy in
    let log' = destroyed ∷ log in
    if reports joined then (some joined, log') else elim (driver.as_pg joined) [
      | some p ↦ (some (project_relational_query_error driver joined), log')
      | none ↦ (some (sentinel Sentinel.internal ∷ joined), log')
    ]

-- `cleanup` for a connection with a transaction.
unfoldable pub cleanup : Driver → World → Log → Option Fault × Log
cleanup driver w log = elim w.rollback [
  | err e ↦ destroy_connection driver w e (rolled_back false ∷ log)
  | ok u ↦ elim w.deallocate_all [
    | err e ↦ destroy_connection driver w e (deallocated false ∷ rolled_back true ∷ log)
    | ok v ↦ elim w.discard_all [
      | err e ↦
          destroy_connection driver w e
            (discarded false ∷ deallocated true ∷ rolled_back true ∷ log)
      | ok x ↦ (none, released ∷ discarded true ∷ deallocated true ∷ rolled_back true ∷ log)
    ]
  ]
]

-- The deferred function: an error of the cleanup takes the place of a result and is joined to an error.
unfoldable pub clean :
    Driver → World → Result RelationalQueryResult → Log → Result RelationalQueryResult × Log
clean driver w r log =
    let c = cleanup driver w log in
    elim c.0 [
      | none ↦ (r, c.1)
      | some e ↦ elim r [ ok q ↦ (err e, c.1) | err x ↦ (err (x ++ e), c.1) ]
    ]

-- The checks of `Query` before it opens anything.
unfoldable pub check_query : Context → RelationalQueryExecutionRequest → Checked
check_query nil_context request = err (wraps Sentinel.cancelled)
check_query (context f) request = do
  elim (f 0) [ none ↦ ok tt | some s ↦ err (sentinel Sentinel.cancelled ∷ wraps s) ]
  require
      (not (
        same request.source.id []
        || not (same request.source.kind (bytes "postgres"))
        || is_blank request.query))
      (wraps Sentinel.invalid_request)

module _ (m : Marshal) (l : Limits) (driver : Driver) where
  -- What `Query` does in a transaction.
  unfoldable pub run_statement :
      Context → World → RelationalQueryExecutionRequest → Result RelationalQueryResult
  run_statement requested w request = elim w.rows [
    | err e ↦ err (execution_error driver requested w (e ++ w.broken_rows))
    | ok none ↦ err (execution_error driver requested w (wraps Sentinel.internal))
    | ok (some rows) ↦
        or_else (read_result m l w.type_name w.reading request.source.kind request.source.id rows)
          (execution_error driver requested w)
  ]

  -- What it does with a connection.
  unfoldable pub run_connection :
      Context → World → RelationalQueryExecutionRequest → Log → Result RelationalQueryResult × Log
  run_connection requested w request log = elim w.transaction [
    | err e ↦ (err (execution_error driver requested w e), released ∷ began read_only false ∷ log)
    | ok is_there ↦
        if is_there
        then clean driver w (run_statement requested w request)
            (ran exec request.query ∷ began read_only true ∷ log)
        else (err (wraps Sentinel.internal), released ∷ began read_only false ∷ log)
  ]

  unfoldable pub run_pool :
      Context → World → RelationalQueryExecutionRequest → Result RelationalQueryResult × Log
  run_pool requested w request = elim w.connection [
    | err e ↦ (err (execution_error driver requested w e), [])
    | ok is_there ↦
        if is_there
        then run_connection requested w request (acquired ∷ [])
        else (err (wraps Sentinel.internal), [])
  ]

  unfoldable pub run_opened :
      Context
      → World
      → RelationalQueryExecutionRequest
      → Opened
      → Result RelationalQueryResult × Log
  run_opened requested w request missing = (err (wraps Sentinel.internal), [])
  run_opened requested w request unsuitable = (err (wraps Sentinel.internal), [])
  run_opened requested w request ready = run_pool requested w request

  -- `Query`; the request's context is asked once at first and once for an error.
  unfoldable pub query :
      Context → World → RelationalQueryExecutionRequest → Result RelationalQueryResult × Log
  query requested w request = elim (check_query requested request) [
    | err e ↦ (err e, [])
    | ok u ↦ elim w.opened [
      | err e ↦ (err (execution_error driver (later requested) w e), [])
      | ok o ↦ run_opened (later requested) w request o
    ]
  ]
