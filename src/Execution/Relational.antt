-- ===== src/Execution/Relational.antt =====
-- `ListRelationalSchemas`, `ListRelationalTables` and `ListRelationalColumns` of
-- internal/execution/discovery_service.go. The contexts count the calls of `Err` before each use.
pub mod Gate
pub mod Pages
use dataporch.Prelude.{
  ℕ, Bool, true, false, not, ◌&&◌, ◌||◌, List, [], ◌∷◌, Option, none, some, if◌then◌else◌, leb,
  length, ℤ, pos,
}
use dataporch.Text.{Text, bytes}
use dataporch.Fault.{
  Fault, Result, ok, err, wraps, internal, invalid_request, ◌>>=◌, ◌>>◌, require, or_else, Context,
  later,
}
use dataporch.Access
use dataporch.Execution.Cursor.{Codec, CursorRequest, encode_cursor, decode_cursor}
use dataporch.Execution.Types.{
  Schema, Table, Column, ListRelationalRequest, ListRelationalSchemasResult,
  ListRelationalTablesResult, ListRelationalColumnsResult, SchemaDiscoveryRequest,
  TableDiscoveryRequest, ColumnDiscoveryRequest, RelationalDiscoverer,
}
use dataporch.Execution.Service.{
  Service, validate_context, effective_limit, validate_source_id, validate_identifier,
  validate_relation_kind, relational_discoverer,
}

unfoldable pub last {ℓ} : {A : Type ℓ} → List A → Option A
last [] = none
last (x ∷ []) = some x
last (x ∷ y ∷ xs) = last (y ∷ xs)

abbrev pub schemas_cursor : ListRelationalRequest → ℕ → CursorRequest
schemas_cursor r limit = record {
  operation = bytes "relational_database.list_schemas";
  source_id = r.source_id;
  schema = [];
  table = [];
  limit = limit;
  search = r.search;
  include_descriptions = r.include_descriptions;
}

abbrev pub tables_cursor : ListRelationalRequest → ℕ → CursorRequest
tables_cursor r limit = record {
  operation = bytes "relational_database.list_tables";
  source_id = r.source_id;
  schema = r.schema;
  table = [];
  limit = limit;
  search = r.search;
  include_descriptions = r.include_descriptions;
}

abbrev pub columns_cursor : ListRelationalRequest → ℕ → CursorRequest
columns_cursor r limit = record {
  operation = bytes "relational_database.list_columns";
  source_id = r.source_id;
  schema = r.schema;
  table = r.table_name;
  limit = limit;
  search = r.search;
  include_descriptions = r.include_descriptions;
}

module _ (c : Codec) where
  -- `if page.HasMore && len(items) > 0`, the cursor of the last item, and no cursor otherwise.
  unfoldable pub next_cursor {ℓ} :
      {A : Type ℓ} → CursorRequest → (A → Text) → (A → ℤ) → Bool → List A → Result Text
  next_cursor request name ordinal false items = ok []
  next_cursor request name ordinal true items = elim (last items) [
    | none ↦ ok []
    | some x ↦ encode_cursor c request (name x) (ordinal x)
  ]

  unfoldable pub list_schemas :
      Service → Context → ListRelationalRequest → Result ListRelationalSchemasResult
  list_schemas s ctx r = do
    validate_context ctx
    limit ← effective_limit s r.limit
    validate_source_id r.source_id
    payload ← decode_cursor c r.cursor (schemas_cursor r limit) false
    discoverer ← relational_discoverer s (later ctx) r.source_id Access.list_relational_schemas
    page ← discoverer.list_schemas (later (later ctx)) (record {
      source_id = r.source_id;
      search = r.search;
      include_descriptions = r.include_descriptions;
      limit = limit;
      after_name = payload.last_name;
    })
    require (leb (length page.schemas) limit) (wraps internal)
    next ←
        next_cursor (schemas_cursor r limit) (λ x. x.name) (λ x. pos 0) page.has_more page.schemas
    ok (record { source_id = r.source_id; schemas = page.schemas; next_cursor = next })

  unfoldable pub list_tables :
      Service → Context → ListRelationalRequest → Result ListRelationalTablesResult
  list_tables s ctx r = do
    validate_context ctx
    limit ← effective_limit s r.limit
    validate_source_id r.source_id
    validate_identifier r.schema
    payload ← decode_cursor c r.cursor (tables_cursor r limit) false
    discoverer ← relational_discoverer s (later ctx) r.source_id Access.list_relational_tables
    page ← discoverer.list_tables (later (later ctx)) (record {
      source_id = r.source_id;
      schema = r.schema;
      search = r.search;
      include_descriptions = r.include_descriptions;
      limit = limit;
      after_name = payload.last_name;
    })
    require (leb (length page.tables) limit) (wraps internal)
    next ← next_cursor (tables_cursor r limit) (λ x. x.name) (λ x. pos 0) page.has_more page.tables
    ok (record {
      source_id = r.source_id;
      schema = r.schema;
      tables = page.tables;
      next_cursor = next;
    })

  unfoldable pub list_columns :
      Service → Context → ListRelationalRequest → Result ListRelationalColumnsResult
  list_columns s ctx r = do
    validate_context ctx
    limit ← effective_limit s r.limit
    validate_source_id r.source_id
    validate_identifier r.schema
    validate_identifier r.table_name
    payload ← decode_cursor c r.cursor (columns_cursor r limit) true
    discoverer ← relational_discoverer s (later ctx) r.source_id Access.list_relational_columns
    page ← discoverer.list_columns (later (later ctx)) (record {
      source_id = r.source_id;
      schema = r.schema;
      table_name = r.table_name;
      search = r.search;
      include_descriptions = r.include_descriptions;
      limit = limit;
      after_ordinal = payload.last_ordinal;
    })
    require (leb (length page.columns) limit) (wraps internal)
    validate_relation_kind page.relation_kind
    next ←
        next_cursor (columns_cursor r limit) (λ x. []) (λ x. x.ordinal_position) page.has_more
          page.columns
    ok (record {
      source_id = r.source_id;
      schema = r.schema;
      table_name = r.table_name;
      relation_kind = page.relation_kind;
      columns = page.columns;
      constraints = page.constraints;
      next_cursor = next;
    })
