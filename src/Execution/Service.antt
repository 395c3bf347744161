-- ===== src/Execution/Service.antt =====
-- internal/execution/discovery_service.go: the service, its construction, and the checks that its
-- operations share. The copies that the source makes of results are the values themselves.
pub mod Laws
use dataporch.Prelude.{
  ℕ, not, ◌||◌, List, [], ◌∷◌, Option, none, some, if◌then◌else◌, ltb, ◌==◌, ℤ, pos, negsuc,
}
use dataporch.Text.{Text, same}
use dataporch.Text.Utf8.{valid_string}
use dataporch.Fault.{
  Checked, Result, ok, err, wraps, sentinel, is, invalid_limit, invalid_request, source_not_found,
  unsupported_source_capability, unsupported_relation_kind, dataporch_access_denied, internal,
  cancelled, database_not_found, ◌>>=◌, ◌>>◌, require, or_else, or_fail, Context, nil_context,
  context, later,
}
use dataporch.Access
use dataporch.Adapters.{index_adapters}
use dataporch.Assoc.{Assoc, lookup, insert}
use dataporch.Connection.Definition.{Definition, validate_id}
use dataporch.Execution.Types.{
  SourceRegistry, Authorizer, RelationalDiscoverer, RelationalQueryExecutor, Dependencies,
  RelationKind, other,
}

pub record Service : Type 0 where
  pub sources : SourceRegistry
  pub authorizer : Authorizer
  pub max_limit : ℕ
  pub relational : Assoc RelationalDiscoverer
  pub relational_queries : Assoc RelationalQueryExecutor

unfoldable pub positive_limit : ℤ → Result ℕ
positive_limit (pos n) = if n == 0 then err (wraps invalid_limit) else ok n
positive_limit (negsuc n) = err (wraps invalid_limit)

-- `New`.
unfoldable pub new_service : Dependencies → Result Service
new_service d = do
  sources ← or_fail d.sources []
  authorizer ← or_fail d.authorizer []
  max_limit ← positive_limit d.max_limit
  relational ← index_adapters (λ a. a.kind) [] d.relational_discoverers
  relational_queries ← index_adapters (λ a. a.kind) [] d.relational_query_executors
  ok (record {
    sources = sources;
    authorizer = authorizer;
    max_limit = max_limit;
    relational = relational;
    relational_queries = relational_queries;
  })

unfoldable pub validate_context : Context → Checked
validate_context nil_context = err []
validate_context (context e) = elim (e 0) [
  | none ↦ ok tt
  | some s ↦ err (sentinel cancelled ∷ wraps s)
]

unfoldable pub effective_limit : Service → Option ℤ → Result ℕ
effective_limit s none = ok s.max_limit
effective_limit s (some (negsuc n)) = err (wraps invalid_request)
effective_limit s (some (pos n)) =
    if n == 0 || ltb s.max_limit n then err (wraps invalid_request) else ok n

-- `validateSourceID`.
unfoldable pub validate_source_id : Text → Checked
validate_source_id id = or_else (validate_id id) (λ e. sentinel invalid_request ∷ e)

unfoldable pub validate_identifier : Text → Checked
validate_identifier value =
    require (not (same value [] || not (valid_string value))) (wraps invalid_request)

unfoldable pub validate_relation_kind : RelationKind → Checked
validate_relation_kind (other t) = err (wraps unsupported_relation_kind)
validate_relation_kind _ = ok tt

-- `Authorize`, and the error that a refusal leads to.
abbrev pub authorized : Service → Context → Access.Request → Checked
authorized s ctx request =
    or_else (s.authorizer ctx request) (λ e. sentinel dataporch_access_denied ∷ e)

-- `s.sources.Lookup`, and the errors that a failure leads to.
abbrev pub find_source : Service → Text → Result Definition
find_source s id =
    or_else (s.sources.find id)
      λ e. if is e database_not_found then wraps source_not_found else wraps internal

-- `relationalDiscoverer`.
unfoldable pub relational_discoverer : Service → Context → Text → Text → Result RelationalDiscoverer
relational_discoverer s ctx source_id action = do
  validate_context ctx
  validate_source_id source_id
  authorized s (later ctx) (record { action = action; kind = []; source_id = source_id })
  definition ← find_source s source_id
  or_fail (lookup definition.kind s.relational) (wraps unsupported_source_capability)
