-- ===== src/Fault/Database.antt =====
-- internal/execution/query_errors.go, the errors that a database reports.
use dataporch.Prelude.{ℕ, Bool, false, [], Option}
use dataporch.Text.{Text}

-- `DatabaseError`. The positions and the line are `int32` and never computed with.
pub record DatabaseError : Type 0 where
  pub kind : Text
  pub code : Text
  pub extended_code : Text
  pub severity : Text
  pub severity_unlocalized : Text
  pub message : Text
  pub truncated : Bool
  pub detail : Text
  pub hint : Text
  pub position : ℕ
  pub internal_position : ℕ
  pub internal_query : Text
  pub where_text : Text
  pub schema_name : Text
  pub table_name : Text
  pub column_name : Text
  pub data_type_name : Text
  pub constraint_name : Text
  pub file : Text
  pub line : ℕ
  pub routine : Text

-- `ErrorCategory`.
pub data Category : Type 0 where
  invalid_request invalid_cursor source_not_found unsupported_source_capability schema_not_found
        relation_not_found unsupported_relation_kind dataporch_access_denied
        database_permission_denied database_unavailable query_timeout cancelled internal :
      Category
  source_kind_mismatch invalid_query read_only_violation query_cancelled result_too_large
        database_authentication_failed database_conflict database_resource_exhausted
        database_error :
      Category

-- `DatabaseFailure`: a failure whose category the adapter has fixed.
pub record DatabaseFailure : Type 0 where
  pub category : Category
  pub retryable : Bool
  pub database_error : Option DatabaseError

-- A `DatabaseError` with these three fields set.
abbrev pub plain_error : Text → Text → Text → DatabaseError
plain_error kind code message = record {
  kind = kind;
  code = code;
  extended_code = [];
  severity = [];
  severity_unlocalized = [];
  message = message;
  truncated = false;
  detail = [];
  hint = [];
  position = 0;
  internal_position = 0;
  internal_query = [];
  where_text = [];
  schema_name = [];
  table_name = [];
  column_name = [];
  data_type_name = [];
  constraint_name = [];
  file = [];
  line = 0;
  routine = [];
}
