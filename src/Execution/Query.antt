-- ===== src/Execution/Query.antt =====
-- `QueryRelationalDatabase` of internal/execution/query.go.
pub mod Gate
use dataporch.Prelude.{
  Bool, true, false, not, ◌&&◌, ◌||◌, List, [], ◌∷◌, Option, none, some, if◌then◌else◌,
}
use dataporch.Text.{Text, same}
use dataporch.Text.Utf8.{is_blank}
use dataporch.Fault.{
  Fault, Result, ok, err, wraps, sentinel, invalid_request, source_kind_mismatch, ◌>>=◌, ◌>>◌,
  require, or_else, or_fail, Context, later,
}
use dataporch.Access
use dataporch.Assoc.{lookup}
use dataporch.Execution.Types.{
  RelationalQueryRequest, RelationalQueryResult, RelationalQueryExecutor,
  RelationalQueryExecutionRequest,
}
use dataporch.Execution.Service.{
  Service, validate_context, validate_source_id, authorized, find_source,
}

unfoldable pub query_database :
    Service → Context → RelationalQueryRequest → Result RelationalQueryResult
query_database s ctx r = do
  validate_context ctx
  require (not (same r.kind [] || same r.source_id [] || is_blank r.query)) (wraps invalid_request)
  executor ← or_fail (lookup r.kind s.relational_queries) (wraps invalid_request)
  validate_source_id r.source_id
  authorized s (later ctx)
      (record { action = Access.query_relational_database; kind = r.kind; source_id = r.source_id })
  definition ← find_source s r.source_id
  require (same definition.kind r.kind) (wraps source_kind_mismatch)
  result ← executor.query (later ctx) (record { source = definition; query = r.query })
  ok (record result { kind = definition.kind; source_id = definition.id })
