-- ===== src/Execution/Query/Gate.antt =====
-- What has been checked when the service of internal/execution answers a query with a result.
use dataporch.Prelude.{◌≡◌, false, not, ◌||◌, [], some, arith}
use dataporch.Text.{same, same_iff}
use dataporch.Text.Utf8.{is_blank}
use dataporch.Fault.{
  ok, wraps, invalid_request, source_kind_mismatch, require, or_fail, Context, later, >>=-eq-ok,
  or_else-eq-ok, or_fail-eq-ok,
}
use dataporch.Access
use dataporch.Assoc.{lookup}
use dataporch.Connection.Definition.{Definition, validate_id}
use dataporch.Execution.Types.{
  RelationalQueryRequest, RelationalQueryResult, RelationalQueryExecutor,
}
use dataporch.Execution.Service.{
  Service, validate_context, validate_source_id, authorized, find_source,
}
use dataporch.Execution.Query.{query_database}

-- The request of a query to the authorizer.
abbrev access_request : RelationalQueryRequest → Access.Request
access_request r = record {
  action = Access.query_relational_database;
  kind = r.kind;
  source_id = r.source_id;
}

-- What has to have happened for a query to return `q`.
pub record IsServed (s : Service) (ctx : Context) (r : RelationalQueryRequest)
    (q : RelationalQueryResult) : Type 0 where
  pub executor : RelationalQueryExecutor
  pub definition : Definition
  pub result : RelationalQueryResult
  pub query_given : is_blank r.query ≡ false
  pub supported : lookup r.kind s.relational_queries ≡ some executor
  pub valid : validate_id r.source_id ≡ ok tt
  pub allowed : s.authorizer (later ctx) (access_request r) ≡ ok tt
  pub registered : s.sources.find r.source_id ≡ ok definition
  pub kind_matches : definition.kind ≡ r.kind
  pub answered :
      executor.query (later ctx) (record { source = definition; query = r.query }) ≡ ok result
  pub stamped : q ≡ record result { kind = definition.kind; source_id = definition.id }

-- A query that returns a result was not blank, named a supported kind and a valid identifier, was
-- allowed by the authorizer, and found a source of that very kind; the adapter's result is returned
-- with the source's kind and identifier.
pub query_database-IsServed :
    (s : Service) (ctx : Context) (r : RelationalQueryRequest) (q : RelationalQueryResult)
    → query_database s ctx r ≡ ok q
    → IsServed s ctx r q
unfolding query_database validate_source_id
query_database-IsServed s ctx r q h =
    let a = >>=-eq-ok (validate_context ctx) _ h in
    let b =
      >>=-eq-ok
        (require (not (same r.kind [] || same r.source_id [] || is_blank r.query))
          (wraps invalid_request))
        _ a.2 in
    let d =
      >>=-eq-ok (or_fail (lookup r.kind s.relational_queries) (wraps invalid_request)) _ b.2 in
    let e = >>=-eq-ok (validate_source_id r.source_id) _ d.2 in
    let f = >>=-eq-ok (authorized s (later ctx) (access_request r)) _ e.2 in
    let g = >>=-eq-ok (find_source s r.source_id) _ f.2 in
    let k = >>=-eq-ok (require (same g.0.kind r.kind) (wraps source_kind_mismatch)) _ g.2 in
    let l = >>=-eq-ok (d.0.query (later ctx) (record { source = g.0; query = r.query })) _ k.2 in
    record {
      executor = d.0;
      definition = g.0;
      result = l.0;
      query_given = ground (arith, b.1);
      supported = or_fail-eq-ok _ _ _ d.1;
      valid = or_else-eq-ok _ _ _ e.1;
      allowed = or_else-eq-ok _ _ _ f.1;
      registered = or_else-eq-ok _ _ _ g.1;
      kind_matches = ground (arith, k.1, same_iff g.0.kind r.kind);
      answered = l.1;
      stamped = ground (arith, l.2);
    }
