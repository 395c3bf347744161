-- ===== src/Tests/Indexes.antt =====
-- A connector and a service that are made from their adapters.
use dataporch.Prelude.{◌≡◌, ◌<◌, refl, [], ◌∷◌, some, pos, false}
use dataporch.Text.{bytes, same}
use dataporch.Fault.{ok, err, wraps, database_not_found}
use dataporch.Access
use dataporch.Assoc.{lookup, insert}
use dataporch.Adapters.{index_adapters, adapter_of}
use dataporch.Connection.Connector.{Adapter, Connector, new_connector}
use dataporch.Execution.Types.{
  Dependencies, RelationalDiscoverer, RelationalQueryExecutor, SourceRegistry, table,
}
use dataporch.Execution.Service.{Service, new_service, positive_limit}
use dataporch.Execution.Service.Laws.{new_service_lem}

abbrev postgres : Adapter
postgres = record {
  kind = bytes "postgres";
  parse_connection_string = λ t. ok (record { settings = []; secrets = [] });
}

abbrev sqlite : Adapter
sqlite = record {
  kind = bytes "sqlite";
  parse_connection_string = λ t. ok (record { settings = (bytes "path", t) ∷ []; secrets = [] });
}

abbrev connector : Connector
connector = (bytes "postgres", postgres) ∷ (bytes "sqlite", sqlite) ∷ []

connected : new_connector (some postgres ∷ some sqlite ∷ []) ≡ ok connector
unfolding new_connector index_adapters lookup insert same
connected = refl

abbrev no_sources : SourceRegistry
no_sources = record { list = []; find = λ id. err (wraps database_not_found) }

abbrev discoverer : RelationalDiscoverer
discoverer = record {
  kind = bytes "postgres";
  list_schemas = λ ctx r. ok (record { schemas = []; has_more = false });
  list_tables = λ ctx r. ok (record { tables = []; has_more = false });
  list_columns = λ ctx r.
      ok (record { columns = []; relation_kind = table; constraints = []; has_more = false });
}

abbrev executor : RelationalQueryExecutor
executor = record { kind = bytes "postgres"; query = λ ctx r. err [] }

abbrev dependencies : Dependencies
dependencies = record {
  sources = some no_sources;
  authorizer = some Access.authorize;
  max_limit = pos 50;
  relational_discoverers = some discoverer ∷ [];
  relational_query_executors = some executor ∷ [];
}

abbrev service : Service
service = record {
  sources = no_sources;
  authorizer = Access.authorize;
  max_limit = 50;
  relational = (bytes "postgres", discoverer) ∷ [];
  relational_queries = (bytes "postgres", executor) ∷ [];
}

served : new_service dependencies ≡ ok service
unfolding new_service positive_limit index_adapters lookup insert same
served = refl

new_service_lem_example :
    (dependencies.sources ≡ some service.sources)
    × (dependencies.authorizer ≡ some service.authorizer)
    × (dependencies.max_limit ≡ pos service.max_limit)
    × (0 < service.max_limit)
    × (lookup (bytes "postgres") service.relational
        ≡ adapter_of (λ a. a.kind) (bytes "postgres") dependencies.relational_discoverers)
    × (lookup (bytes "postgres") service.relational_queries
        ≡ adapter_of (λ a. a.kind) (bytes "postgres") dependencies.relational_query_executors)
new_service_lem_example = new_service_lem dependencies service (bytes "postgres") served
