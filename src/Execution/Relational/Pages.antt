-- ===== src/Execution/Relational/Pages.antt =====
-- What a page of `ListRelationalDatabaseSchemas`, `…Tables` and `…Columns` of
-- internal/execution/discovery_service.go rests on.
use dataporch.Prelude.{ℕ, ◌≤◌, ◌≡◌, true, false, [], arith, leb, length, pos}
use dataporch.Fault.{ok, wraps, internal, require, Context, later, >>=-eq-ok}
use dataporch.Access
use dataporch.Execution.Cursor.{Codec, CursorPayload, decode_cursor}
use dataporch.Execution.Types.{
  ListRelationalRequest, ListRelationalSchemasResult, ListRelationalTablesResult,
  ListRelationalColumnsResult, SchemaDiscoveryPage, TableDiscoveryPage, ColumnDiscoveryPage,
  RelationalDiscoverer,
}
use dataporch.Execution.Service.{
  Service, validate_context, effective_limit, validate_source_id, validate_identifier,
  validate_relation_kind, relational_discoverer,
}
use dataporch.Execution.Relational.{
  list_schemas, list_tables, list_columns, next_cursor, schemas_cursor, tables_cursor,
  columns_cursor,
}
use dataporch.Execution.Relational.Gate.{IsReached, relational_discoverer-IsReached}

module _ (c : Codec) (s : Service) (ctx : Context) (r : ListRelationalRequest) where
  -- A list of schemas that is returned is the page of the adapter that the source's kind leads to,
  -- asked within the effective limit and from the cursor's position; the request was allowed, and
  -- the list is no longer than the limit.
  pub list_schemas-IsReached :
      (q : ListRelationalSchemasResult)
      → list_schemas c s ctx r ≡ ok q
      → (limit : ℕ) × (d : RelationalDiscoverer) × (payload : CursorPayload)
        × (page : SchemaDiscoveryPage) × (effective_limit s r.limit ≡ ok limit)
        × (decode_cursor c r.cursor (schemas_cursor r limit) false ≡ ok payload)
        × IsReached s (later ctx) r.source_id Access.list_relational_schemas d
        × (d.list_schemas (later (later ctx)) (record {
          source_id = r.source_id;
          search = r.search;
          include_descriptions = r.include_descriptions;
          limit = limit;
          after_name = payload.last_name;
        })
            ≡ ok page)
        × (q.schemas ≡ page.schemas)
        × (length q.schemas ≤ limit)
  unfolding list_schemas
  list_schemas-IsReached q h =
      let a = >>=-eq-ok (validate_context ctx) _ h in
      let b = >>=-eq-ok (effective_limit s r.limit) _ a.2 in
      let e = >>=-eq-ok (validate_source_id r.source_id) _ b.2 in
      let f = >>=-eq-ok (decode_cursor c r.cursor (schemas_cursor r b.0) false) _ e.2 in
      let g =
        >>=-eq-ok (relational_discoverer s (later ctx) r.source_id Access.list_relational_schemas) _
          f.2 in
      let k =
        >>=-eq-ok
          (g.0.list_schemas (later (later ctx)) (record {
            source_id = r.source_id;
            search = r.search;
            include_descriptions = r.include_descriptions;
            limit = b.0;
            after_name = f.0.last_name;
          }))
          _ g.2 in
      let l = >>=-eq-ok (require (leb (length k.0.schemas) b.0) (wraps internal)) _ k.2 in
      let n =
        >>=-eq-ok
          (next_cursor c (schemas_cursor r b.0) (λ x. x.name) (λ x. pos 0) k.0.has_more k.0.schemas)
          _ l.2 in
      (
        b.0,
        g.0,
        f.0,
        k.0,
        b.1,
        f.1,
        relational_discoverer-IsReached _ _ _ _ _ g.1,
        k.1,
        ground (arith, n.2),
        ground (arith, l.1, n.2),
      )

  -- A list of tables that is returned is the page of the adapter that the source's kind leads to,
  -- asked within the effective limit and from the cursor's position; the request was allowed, and
  -- the list is no longer than the limit.
  pub list_tables-IsReached :
      (q : ListRelationalTablesResult)
      → list_tables c s ctx r ≡ ok q
      → (limit : ℕ) × (d : RelationalDiscoverer) × (payload : CursorPayload)
        × (page : TableDiscoveryPage) × (effective_limit s r.limit ≡ ok limit)
        × (decode_cursor c r.cursor (tables_cursor r limit) false ≡ ok payload)
        × IsReached s (later ctx) r.source_id Access.list_relational_tables d
        × (d.list_tables (later (later ctx)) (record {
          source_id = r.source_id;
          schema = r.schema;
          search = r.search;
          include_descriptions = r.include_descriptions;
          limit = limit;
          after_name = payload.last_name;
        })
            ≡ ok page)
        × (q.tables ≡ page.tables)
        × (length q.tables ≤ limit)
  unfolding list_tables
  list_tables-IsReached q h =
      let a = >>=-eq-ok (validate_context ctx) _ h in
      let b = >>=-eq-ok (effective_limit s r.limit) _ a.2 in
      let e = >>=-eq-ok (validate_source_id r.source_id) _ b.2 in
      let e2 = >>=-eq-ok (validate_identifier r.schema) _ e.2 in
      let f = >>=-eq-ok (decode_cursor c r.cursor (tables_cursor r b.0) false) _ e2.2 in
      let g =
        >>=-eq-ok (relational_discoverer s (later ctx) r.source_id Access.list_relational_tables) _
          f.2 in
      let k =
        >>=-eq-ok
          (g.0.list_tables (later (later ctx)) (record {
            source_id = r.source_id;
            schema = r.schema;
            search = r.search;
            include_descriptions = r.include_descriptions;
            limit = b.0;
            after_name = f.0.last_name;
          }))
          _ g.2 in
      let l = >>=-eq-ok (require (leb (length k.0.tables) b.0) (wraps internal)) _ k.2 in
      let n =
        >>=-eq-ok
          (next_cursor c (tables_cursor r b.0) (λ x. x.name) (λ x. pos 0) k.0.has_more k.0.tables) _
          l.2 in
      (
        b.0,
        g.0,
        f.0,
        k.0,
        b.1,
        f.1,
        relational_discoverer-IsReached _ _ _ _ _ g.1,
        k.1,
        ground (arith, n.2),
        ground (arith, l.1, n.2),
      )

  -- A list of columns that is returned is the page of the adapter that the source's kind leads to,
  -- asked within the effective limit and from the cursor's position; the request was allowed, and
  -- the list is no longer than the limit.
  pub list_columns-IsReached :
      (q : ListRelationalColumnsResult)
      → list_columns c s ctx r ≡ ok q
      → (limit : ℕ) × (d : RelationalDiscoverer) × (payload : CursorPayload)
        × (page : ColumnDiscoveryPage) × (effective_limit s r.limit ≡ ok limit)
        × (decode_cursor c r.cursor (columns_cursor r limit) true ≡ ok payload)
        × IsReached s (later ctx) r.source_id Access.list_relational_columns d
        × (d.list_columns (later (later ctx)) (record {
          source_id = r.source_id;
          schema = r.schema;
          table_name = r.table_name;
          search = r.search;
          include_descriptions = r.include_descriptions;
          limit = limit;
          after_ordinal = payload.last_ordinal;
        })
            ≡ ok page)
        × (q.columns ≡ page.columns)
        × (length q.columns ≤ limit)
  unfolding list_columns
  list_columns-IsReached q h =
      let a = >>=-eq-ok (validate_context ctx) _ h in
      let b = >>=-eq-ok (effective_limit s r.limit) _ a.2 in
      let e = >>=-eq-ok (validate_source_id r.source_id) _ b.2 in
      let e2 = >>=-eq-ok (validate_identifier r.schema) _ e.2 in
      let e3 = >>=-eq-ok (validate_identifier r.table_name) _ e2.2 in
      let f = >>=-eq-ok (decode_cursor c r.cursor (columns_cursor r b.0) true) _ e3.2 in
      let g =
        >>=-eq-ok (relational_discoverer s (later ctx) r.source_id Access.list_relational_columns) _
          f.2 in
      let k =
        >>=-eq-ok
          (g.0.list_columns (later (later ctx)) (record {
            source_id = r.source_id;
            schema = r.schema;
            table_name = r.table_name;
            search = r.search;
            include_descriptions = r.include_descriptions;
            limit = b.0;
            after_ordinal = f.0.last_ordinal;
          }))
          _ g.2 in
      let l = >>=-eq-ok (require (leb (length k.0.columns) b.0) (wraps internal)) _ k.2 in
      let m = >>=-eq-ok (validate_relation_kind k.0.relation_kind) _ l.2 in
      let n =
        >>=-eq-ok
          (next_cursor c (columns_cursor r b.0) (λ x. []) (λ x. x.ordinal_position) k.0.has_more
            k.0.columns)
          _ m.2 in
      (
        b.0,
        g.0,
        f.0,
        k.0,
        b.1,
        f.1,
        relational_discoverer-IsReached _ _ _ _ _ g.1,
        k.1,
        ground (arith, n.2),
        ground (arith, l.1, n.2),
      )
