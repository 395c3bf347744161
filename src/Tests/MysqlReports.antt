-- ===== src/Tests/MysqlReports.antt =====
-- A report of MySQL that names a file, and what a client sees of it.
use dataporch.Execution.QueryErrors.{as_database_error}
use dataporch.Execution.QueryErrors.{database_failure}
use dataporch.Mysql.Errors.{mysql_failure}
use dataporch.Mysql.Errors.{is_mysql_known_error}
use dataporch.Execution.QueryErrors.{as_failure}
use dataporch.Mysql.Errors.{is_mysql_projected_error}
use dataporch.Mysql.Errors.{project_without_context}
use dataporch.Mysql.Errors.{query_verdict}
use dataporch.Mysql.Errors.{request_verdict}
use dataporch.Fault.{is}
use dataporch.Execution.QueryErrors.{classify_query_error}
use dataporch.Execution.QueryErrors.{context_category}
use dataporch.Text.{contains}
use dataporch.Diagnostics.{redact}
use dataporch.Text.Utf8.{is_space}
use dataporch.Text.Utf8.{to_valid}
use dataporch.Text.Words.{without}
use dataporch.Text.Utf8.{chunks}
use dataporch.Text.Words.{fields_from}
use dataporch.Text.Words.{fields}
use dataporch.Text.Words.{join}
use dataporch.Text.{same}
use dataporch.Diagnostics.{bounded}
use dataporch.Prelude.{◌≡◌, refl, false, [], ◌∷◌, none, some}
use dataporch.Text.{bytes}
use dataporch.Fault.{Fault, foreign, background}
use dataporch.Fault.Database.{DatabaseError}
use dataporch.Diagnostics.{IsShown, mysql_diagnostic}
use dataporch.Execution.QueryErrors.{classify_query}
use dataporch.Mysql.Errors.{Driver, project_mysql_error, project_mysql_query_error}
use dataporch.Mysql.Errors.Laws.{
  answer, project_mysql_query_error-IsShown, project_mysql_query_error-classify,
}

abbrev refused : Fault
refused = foreign 7 ∷ []

abbrev driver : Driver
driver = record {
  as_mysql = λ e.
      some (record { number = 1064; sql_state = bytes "42000"; message = bytes "no  /etc/db" });
  is_bad_conn = λ e. false;
  is_network_error = λ e. false;
  is_errno = λ n e. false;
  lower_text = λ e. bytes "error 1064 (42000): no  /etc/db";
  to_upper = λ t. t;
}

redacted_path : mysql_diagnostic (bytes "no  /etc/db") ≡ bytes "no [redacted]"
unfolding mysql_diagnostic bounded same join fields fields_from chunks without to_valid is_space
    redact contains
redacted_path = refl

abbrev report : DatabaseError
report =
    project_mysql_error
      (record { number = 1064; sql_state = bytes "42000"; message = bytes "no  /etc/db" })

reported :
    (classify_query background
      (some (project_mysql_query_error driver background none refused))).database_error
    ≡ some report
unfolding classify_query context_category classify_query_error is project_mysql_query_error
    request_verdict query_verdict project_without_context is_mysql_projected_error as_failure
    is_mysql_known_error mysql_failure database_failure
reported = refl

project_mysql_query_error-IsShown_example : IsShown report.message
unfolding as_failure as_database_error
project_mysql_query_error-IsShown_example =
    project_mysql_query_error-IsShown driver background background none refused report (refl, refl)
      reported

project_mysql_query_error-classify_example :
    classify_query background (some (project_mysql_query_error driver background none refused))
    ≡ answer driver none refused
unfolding context_category request_verdict
project_mysql_query_error-classify_example =
    project_mysql_query_error-classify driver background background none refused (tt, tt) refl refl
