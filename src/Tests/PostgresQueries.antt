-- ===== src/Tests/PostgresQueries.antt =====
-- Two queries at PostgreSQL: one whose connection cannot be reset, one that the server refuses.
use dataporch.Postgres.Rows.{finish}
use dataporch.Postgres.Rows.{append_row}
use dataporch.Postgres.Budget.{fits_additional_row}
use dataporch.Postgres.Budget.{consume_value}
use dataporch.Postgres.Budget.{consume_values}
use dataporch.Postgres.Budget.{consume}
use dataporch.Postgres.Budget.{encoded_row_size}
use dataporch.Postgres.Rows.{query_columns}
use dataporch.Execution.QueryErrors.{context_category}
use dataporch.Postgres.Query.{has_ended}
use dataporch.Postgres.Query.{request_error}
use dataporch.Postgres.Rows.{admit_row}
use dataporch.Postgres.Rows.{read_loop}
use dataporch.Text.Decimal.{digits}
use dataporch.Postgres.Budget.{fits}
use dataporch.Postgres.Rows.{new_budget}
use dataporch.Postgres.Rows.{read_rows}
use dataporch.Postgres.Query.{run_statement}
use dataporch.Postgres.Query.{cleanup}
use dataporch.Postgres.Query.{clean}
use dataporch.Postgres.Query.{run_connection}
use dataporch.Postgres.Query.{run_pool}
use dataporch.Postgres.Query.{run_opened}
use dataporch.Text.Utf8.{is_blank}
use dataporch.Text.{same}
use dataporch.Postgres.Query.{check_query}
use dataporch.Prelude.{◌≡◌, refl, true, false, [], ◌∷◌, none, some}
use dataporch.Text.{bytes}
use dataporch.Fault.{Fault, foreign, ok, err, background}
use dataporch.Execution.Types.{RelationalQueryExecutionRequest}
use dataporch.Execution.QueryErrors.{classify_query}
use dataporch.Postgres.Rows.{read_result}
use dataporch.Postgres.Errors.{Driver, PgError}
use dataporch.Postgres.Errors.Laws.{answer}
use dataporch.Postgres.Query.{World, ready, query}
use dataporch.Postgres.Query.Sessions.{IsSettled, query-IsSettled}
use dataporch.Postgres.Query.Answers.{IsEarned, query-IsEarned, query-refused}
use dataporch.Tests.Results.{marshal, limits, rows, type_names, result}

abbrev sales : RelationalQueryExecutionRequest
sales = record {
  source = record { id = bytes "sales"; kind = bytes "postgres"; settings = []; secret_refs = [] };
  query = bytes "SELECT n, m FROM t";
}

-- A world in which every call succeeds.
abbrev smooth : World
smooth = record {
  opened = ok ready;
  connection = ok true;
  transaction = ok true;
  rows = ok (some rows);
  broken_rows = [];
  rollback = ok tt;
  deallocate_all = ok tt;
  discard_all = ok tt;
  destroy = ok tt;
  type_name = type_names;
  query_ended = none;
  reading = background;
}

abbrev refusal : PgError
refusal = record {
  severity = bytes "ERROR";
  severity_unlocalized = bytes "ERROR";
  code = bytes "25006";
  message = bytes "cannot execute INSERT in a read-only transaction";
  detail = [];
  hint = [];
  position = 0;
  internal_position = 0;
  internal_query = [];
  where_text = [];
  schema_name = [];
  table_name = [];
  column_name = [];
  data_type_name = [];
  constraint_name = [];
  file = [];
  line = 0;
  routine = [];
}

abbrev driver : Driver
driver = record { as_pg = λ e. some refusal; safe_to_retry = λ e. false }

-- A world in which the reset of the connection fails.
abbrev stuck : World
stuck = record smooth { discard_all = err (foreign 1 ∷ []) }

query-IsSettled_example : IsSettled (query marshal limits driver background stuck sales).1
query-IsSettled_example = query-IsSettled marshal limits driver background stuck sales

answered : (query marshal limits driver background smooth sales).0 ≡ ok result
unfolding query check_query same is_blank run_opened run_pool run_connection clean cleanup
    run_statement read_result read_rows new_budget fits digits read_loop admit_row query_columns
    encoded_row_size consume consume_values consume_value fits_additional_row append_row finish
answered = refl

query-IsEarned_example :
    IsEarned marshal limits smooth sales result
      (query marshal limits driver background smooth sales).1
query-IsEarned_example =
    query-IsEarned marshal limits driver background smooth sales result answered

-- A world in which PostgreSQL refuses the statement.
abbrev refusing : World
refusing = record smooth { rows = err (foreign 2 ∷ []) }

query-refused_example :
    (x : Fault) × ((query marshal limits driver background refusing sales).0 ≡ err x)
    × (classify_query background (some x) ≡ answer driver (foreign 2 ∷ []))
unfolding check_query same is_blank request_error has_ended context_category
query-refused_example =
    query-refused marshal limits driver background background refusing sales (foreign 2 ∷ []) refl
      refl refl refl refl (refl, refl, refl) (tt, tt) refl refl refl
