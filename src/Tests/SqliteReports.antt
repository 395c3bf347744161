-- ===== src/Tests/SqliteReports.antt =====
-- A report of SQLite that names a file, and what a client sees of it.
use dataporch.Sqlite.Errors.{is_discovery_sentinel}
use dataporch.Execution.QueryErrors.{as_database_error}
use dataporch.Execution.QueryErrors.{database_failure}
use dataporch.Sqlite.Errors.{extract_error}
use dataporch.Sqlite.Errors.{is_known_query_error}
use dataporch.Sqlite.Errors.{is_projected_sqlite_error}
use dataporch.Sqlite.Errors.{project_live_error}
use dataporch.Sqlite.Errors.{query_ending}
use dataporch.Sqlite.Errors.{request_error}
use dataporch.Sqlite.Errors.{project_context_error}
use dataporch.Fault.{is}
use dataporch.Execution.QueryErrors.{classify_query_error}
use dataporch.Execution.QueryErrors.{context_category}
use dataporch.Prelude.{◌≡◌, ◌≢◌, refl, false, [], ◌∷◌, none, some}
use dataporch.Text.{bytes}
use dataporch.Fault.{Fault, foreign, background}
use dataporch.Fault.Database.{DatabaseError, DatabaseFailure, invalid_query}
use dataporch.Diagnostics.{IsShown}
use dataporch.Execution.QueryErrors.{classify_query, as_failure}
use dataporch.Sqlite.Codes.{code_error, error_retry}
use dataporch.Sqlite.Errors.{
  Library, ExtractedError, prepare_phase, step_phase, sqlite_report, classify_sqlite_error,
  project_sqlite_error, project_discovery_error,
}
use dataporch.Sqlite.Errors.Answers.{answer, project_sqlite_error-classify}
use dataporch.Sqlite.Errors.Laws.{project_sqlite_error-IsShown, project_discovery_error-ne}

abbrev refused : Fault
refused = foreign 7 ∷ []

abbrev extracted : ExtractedError
extracted = record { code = code_error; extended = error_retry; message = bytes "no /etc/db" }

abbrev library : Library
library = record {
  as_error = λ e. some extracted;
  as_extended = λ e. none;
  as_code = λ e. none;
  code_of = λ x. code_error;
  is_primary = λ x. false;
}

abbrev report : DatabaseError
report = sqlite_report library extracted prepare_phase

reported :
    (classify_query background
      (some (project_sqlite_error library background none refused prepare_phase))).database_error
    ≡ some report
unfolding classify_query context_category classify_query_error is project_sqlite_error
    project_context_error request_error query_ending project_live_error is_projected_sqlite_error
    as_failure is_known_query_error extract_error classify_sqlite_error database_failure
reported = refl

project_sqlite_error-IsShown_example : IsShown report.message
unfolding as_failure as_database_error
project_sqlite_error-IsShown_example =
    project_sqlite_error-IsShown library background background none refused prepare_phase report
      (refl, refl) reported

project_sqlite_error-classify_example :
    classify_query background
      (some (project_sqlite_error library background none refused prepare_phase))
    ≡ answer library none refused prepare_phase
unfolding context_category request_error
project_sqlite_error-classify_example =
    project_sqlite_error-classify library background background none refused prepare_phase (tt, tt)
      refl refl

abbrev verdict : DatabaseFailure
verdict = classify_sqlite_error library extracted step_phase

discovered :
    as_failure (project_discovery_error library background none refused prepare_phase)
    ≡ some verdict
unfolding as_failure project_discovery_error is_discovery_sentinel is project_sqlite_error
    project_context_error request_error query_ending project_live_error is_projected_sqlite_error
    is_known_query_error extract_error
discovered = refl

project_discovery_error-ne_example : verdict.category ≢ invalid_query
unfolding as_failure as_database_error
project_discovery_error-ne_example =
    project_discovery_error-ne library background none refused prepare_phase verdict (refl, refl)
      discovered
