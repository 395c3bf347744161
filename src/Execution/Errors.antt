-- ===== src/Execution/Errors.antt =====
-- internal/execution/errors.go: the public failure that an error leads to.
pub mod Laws
use dataporch.Prelude.{Bool, true, false, ◌||◌, List, [], ◌∷◌, Option, none, some, if◌then◌else◌}
use dataporch.Text.{Text, bytes}
use dataporch.Fault.{Fault, Sentinel, is}
use dataporch.Fault
use dataporch.Fault.Database.{
  DatabaseError, Category, invalid_request, invalid_cursor, source_not_found,
  unsupported_source_capability, schema_not_found, relation_not_found, unsupported_relation_kind,
  dataporch_access_denied, database_permission_denied, database_unavailable, query_timeout,
  cancelled, internal,
}

-- `Failure`; the category of `Failure{}` is none.
pub record Failure : Type 0 where
  pub category : Option Category
  pub message : Text
  pub retryable : Bool
  pub database_error : Option DatabaseError

abbrev pub no_failure : Failure
no_failure = record { category = none; message = []; retryable = false; database_error = none }

-- The table of `failureForCategory`; a missing key reads as the empty text.
unfoldable pub message_of : Category → Text
message_of invalid_request = bytes "The request is invalid."
message_of invalid_cursor = bytes "The cursor is invalid or no longer matches the request."
message_of source_not_found = bytes "The data source was not found."
message_of unsupported_source_capability =
    bytes "The data source does not support relational discovery."
message_of schema_not_found = bytes "The schema was not found."
message_of relation_not_found = bytes "The relation was not found."
message_of unsupported_relation_kind = bytes "The relation kind is not supported."
message_of dataporch_access_denied = bytes "DataPorch access was denied."
message_of database_permission_denied =
    bytes "The database denied access to the requested metadata."
message_of database_unavailable = bytes "The database is unavailable."
message_of query_timeout = bytes "The metadata query timed out."
message_of cancelled = bytes "The request was cancelled."
message_of internal = bytes "The operation failed safely."
message_of _ = []

unfoldable pub is_retryable : Category → Bool
is_retryable database_unavailable = true
is_retryable query_timeout = true
is_retryable _ = false

-- `failureForCategory`.
unfoldable pub failure_for : Category → Failure
failure_for c = record {
  category = some c;
  message = message_of c;
  retryable = is_retryable c;
  database_error = none;
}

-- The cases of `Classify`, in their order.
unfoldable pub category_of : Fault → Category
category_of e =
    if is e Sentinel.invalid_cursor
    then invalid_cursor
    else if is e Sentinel.invalid_request || is e Sentinel.invalid_limit
    then invalid_request
    else if is e Sentinel.source_not_found
    then source_not_found
    else if is e Sentinel.unsupported_source_capability
    then unsupported_source_capability
    else if is e Sentinel.schema_not_found
    then schema_not_found
    else if is e Sentinel.relation_not_found
    then relation_not_found
    else if is e Sentinel.unsupported_relation_kind
    then unsupported_relation_kind
    else if is e Sentinel.dataporch_access_denied
    then dataporch_access_denied
    else if is e Sentinel.database_permission_denied
    then database_permission_denied
    else if is e Sentinel.query_timeout || is e Sentinel.deadline_exceeded
    then query_timeout
    else if is e Sentinel.cancelled || is e Sentinel.canceled
    then cancelled
    else if is e Sentinel.database_unavailable
    then database_unavailable
    else internal

-- `Classify`; no error is `none`.
unfoldable pub classify : Option Fault → Failure
classify none = no_failure
classify (some e) = failure_for (category_of e)
