-- ===== src/Tests/Failures.antt =====
-- Classified errors of discoveries and of queries.
use dataporch.Prelude.{◌≡◌, refl, true, false, [], ◌∷◌, none, some}
use dataporch.Text.{bytes, same, has_prefix}
use dataporch.Fault.{Fault, Leaf, failure, database, sentinel, wraps, is, background}
use dataporch.Fault
use dataporch.Fault.Database.{DatabaseError}
use dataporch.Execution.Errors.{is_retryable, failure_for, category_of, classify}
use dataporch.Execution.QueryErrors.{
  classify_query, classify_query_error, classify_database_error, context_category, as_failure,
  as_database_error, database_failure, sqlstate,
}
use dataporch.Execution.QueryErrors.Laws.{IsReported, classify_query_reports}

abbrev timeout : Fault
timeout = wraps Fault.query_timeout

may_retry : (classify (some timeout)).retryable ≡ true
unfolding classify failure_for category_of is_retryable is
may_retry = refl

-- What PostgreSQL reports of a transaction that cannot be serialized.
abbrev conflict : DatabaseError
conflict = record {
  kind = bytes "postgres";
  code = bytes "40001";
  extended_code = [];
  severity = bytes "ERROR";
  severity_unlocalized = bytes "ERROR";
  message = bytes "could not serialize access";
  truncated = false;
  detail = [];
  hint = [];
  position = 0;
  internal_position = 0;
  internal_query = [];
  where_text = [];
  schema_name = [];
  table_name = [];
  column_name = [];
  data_type_name = [];
  constraint_name = [];
  file = [];
  line = 0;
  routine = [];
}

abbrev reported : Fault
reported = database conflict ∷ []

no_verdict : as_failure reported ≡ none
unfolding as_failure
no_verdict = refl

reports_it : (classify_query background (some reported)).database_error ≡ some conflict
unfolding classify_query classify_query_error classify_database_error context_category as_failure
    as_database_error database_failure sqlstate is same
reports_it = refl

classify_query_reports_example : IsReported background reported conflict
classify_query_reports_example = classify_query_reports background reported conflict reports_it

query_may_retry : (classify_query background (some reported)).retryable ≡ true
unfolding classify_query classify_query_error classify_database_error context_category as_failure
    as_database_error database_failure sqlstate is same has_prefix
query_may_retry = refl
