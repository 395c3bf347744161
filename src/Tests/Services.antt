-- ===== src/Tests/Services.antt =====
-- A service over the manager of two definitions, with one adapter.
use dataporch.Prelude.{ℕ, suc, ◌≤◌, ◌≡◌, refl, true, false, [], ◌∷◌, none, some, arith, length, pos}
use dataporch.Text.{bytes, same, before}
use dataporch.Text.Utf8.{is_blank, valid_string, is_space, runes}
use dataporch.Fault.{ok, background, later}
use dataporch.Access
use dataporch.Assoc.{lookup}
use dataporch.Sort.{sort}
use dataporch.Connection.Definition.{
  validate_id, is_valid_id, is_valid_id_character, is_ascii_letter, is_ascii_digit,
}
use dataporch.Connection.Manager.{find, list}
use dataporch.Execution.Types.{
  ListRelationalRequest, ListRelationalSchemasResult, ListRelationalTablesResult,
  ListRelationalColumnsResult, SchemaDiscoveryPage, TableDiscoveryPage, ColumnDiscoveryPage,
  RelationalDiscoverer, RelationalQueryExecutor, RelationalQueryRequest, RelationalQueryResult,
  table,
}
use dataporch.Execution.Cursor.{CursorPayload, decode_cursor}
use dataporch.Execution.Service.{
  Service, validate_context, effective_limit, validate_source_id, validate_identifier,
  validate_relation_kind, relational_discoverer,
}
use dataporch.Execution.Sources.Client.{collect, IsRegistry, IsAllowed, sources_of}
use dataporch.Execution.Sources.Pages.{collect_all}
use dataporch.Execution.Relational.{
  next_cursor, columns_cursor, list_schemas, list_tables, list_columns,
}
use dataporch.Execution.Relational.Gate.{IsReached}
use dataporch.Execution.Relational.Pages.{list_columns-IsReached}
use dataporch.Execution.Query.{query_database}
use dataporch.Execution.Query.Gate.{IsServed, query_database-IsServed}
use dataporch.Tests.Codecs.{plain, plain-IsCodec}
use dataporch.Tests.Connections.{manager}

abbrev schema_page : SchemaDiscoveryPage
schema_page = record {
  schemas = record { name = bytes "public"; description = none } ∷ [];
  has_more = false;
}

abbrev table_page : TableDiscoveryPage
table_page = record {
  tables = record { name = bytes "orders"; kind = table; description = none } ∷ [];
  has_more = false;
}

abbrev column_page : ColumnDiscoveryPage
column_page = record { columns = []; relation_kind = table; constraints = []; has_more = false }

abbrev discoverer : RelationalDiscoverer
discoverer = record {
  kind = bytes "postgres";
  list_schemas = λ ctx r. ok schema_page;
  list_tables = λ ctx r. ok table_page;
  list_columns = λ ctx r. ok column_page;
}

abbrev answer : RelationalQueryResult
answer = record {
  kind = [];
  source_id = [];
  columns = record { name = bytes "n"; database_type = bytes "int4" } ∷ [];
  rows = (some (bytes "1") ∷ []) ∷ [];
  row_count = 1;
  truncated = false;
}

abbrev executor : RelationalQueryExecutor
executor = record { kind = bytes "postgres"; query = λ ctx r. ok answer }

abbrev service : Service
service = record {
  sources = record { list = list manager; find = λ id. find id manager };
  authorizer = Access.authorize;
  max_limit = 100;
  relational = (bytes "postgres", discoverer) ∷ [];
  relational_queries = (bytes "postgres", executor) ∷ [];
}

abbrev query_request : RelationalQueryRequest
query_request = record {
  kind = bytes "postgres";
  source_id = bytes "sales";
  query = bytes "select 1";
}

abbrev answered : RelationalQueryResult
answered = record answer { kind = bytes "postgres"; source_id = bytes "sales" }

served : query_database service background query_request ≡ ok answered
unfolding query_database validate_context validate_source_id validate_id is_valid_id
    is_valid_id_character is_ascii_letter is_ascii_digit is_blank runes is_space same lookup find
    Access.authorize
served = refl

query_database-IsServed_example : IsServed service background query_request answered
query_database-IsServed_example =
    query_database-IsServed service background query_request answered served

abbrev request : ListRelationalRequest
request = record {
  source_id = bytes "sales";
  schema = bytes "public";
  table_name = bytes "orders";
  search = [];
  include_descriptions = true;
  limit = some (pos 10);
  cursor = [];
}

reached :
    relational_discoverer service background (bytes "sales") Access.list_relational_schemas
    ≡ ok discoverer
unfolding relational_discoverer validate_context validate_source_id validate_id is_valid_id
    is_valid_id_character is_ascii_letter is_ascii_digit runes same lookup find Access.authorize
reached = refl

abbrev ten : ℕ
ten = 10

limited : effective_limit service (some (pos 10)) ≡ ok 10
unfolding effective_limit
limited = refl

abbrev schemas : ListRelationalSchemasResult
schemas = record { source_id = bytes "sales"; schemas = schema_page.schemas; next_cursor = [] }

schemas_listed : list_schemas plain service background request ≡ ok schemas
unfolding list_schemas effective_limit decode_cursor next_cursor relational_discoverer
    validate_context validate_source_id validate_id is_valid_id is_valid_id_character
    is_ascii_letter is_ascii_digit runes same lookup find Access.authorize
schemas_listed = refl

abbrev tables : ListRelationalTablesResult
tables = record {
  source_id = bytes "sales";
  schema = bytes "public";
  tables = table_page.tables;
  next_cursor = [];
}

tables_listed : list_tables plain service background request ≡ ok tables
unfolding list_tables effective_limit decode_cursor next_cursor relational_discoverer
    validate_context validate_source_id validate_id validate_identifier valid_string is_valid_id
    is_valid_id_character is_ascii_letter is_ascii_digit runes same lookup find Access.authorize
tables_listed = refl

abbrev columns : ListRelationalColumnsResult
columns = record {
  source_id = bytes "sales";
  schema = bytes "public";
  table_name = bytes "orders";
  relation_kind = table;
  columns = [];
  constraints = [];
  next_cursor = [];
}

columns_listed : list_columns plain service background request ≡ ok columns
unfolding list_columns effective_limit decode_cursor next_cursor relational_discoverer
    validate_context validate_source_id validate_id validate_identifier validate_relation_kind
    valid_string is_valid_id is_valid_id_character is_ascii_letter is_ascii_digit runes same lookup
    find Access.authorize
columns_listed = refl

list_columns-IsReached_example :
    (limit : ℕ) × (d : RelationalDiscoverer) × (payload : CursorPayload)
    × (page : ColumnDiscoveryPage) × (effective_limit service (some (pos 10)) ≡ ok limit)
    × (decode_cursor plain [] (columns_cursor request limit) true ≡ ok payload)
    × IsReached service (later background) (bytes "sales") Access.list_relational_columns d
    × (d.list_columns (later (later background)) (record {
      source_id = bytes "sales";
      schema = bytes "public";
      table_name = bytes "orders";
      search = [];
      include_descriptions = true;
      limit = limit;
      after_ordinal = payload.last_ordinal;
    })
        ≡ ok page)
    × (columns.columns ≡ page.columns)
    × (length columns.columns ≤ limit)
list_columns-IsReached_example =
    list_columns-IsReached plain service background request columns columns_listed

registry : IsRegistry (list manager)
unfolding list sort before same is_valid_id_character is_ascii_letter is_ascii_digit
registry = record {
  valid = (
    record { not_empty = omega arith; fits = omega arith; characters = refl },
    (record { not_empty = omega arith; fits = omega arith; characters = refl }, tt),
  );
  distinct = ((refl, tt), (tt, tt));
}

allowed : IsAllowed service
unfolding Access.authorize same
allowed = refl

one : effective_limit service (some (pos 1)) ≡ ok 1
unfolding effective_limit
one = refl

collect_all_example :
    collect plain
      (λ t. t)
      service
      []
      (some (pos 1))
      (suc (length (sources_of plain (λ t. t) service [])))
      []
    ≡ ok (sources_of plain (λ t. t) service [])
collect_all_example =
    collect_all plain plain-IsCodec (λ t. t) service [] (some (pos 1)) 1 registry (omega arith) one
      allowed
