-- ===== src/Execution/Types.antt =====
-- internal/execution/types.go and the request and result types of query.go. Pointers to values are
-- options. The interfaces that the service is given are records of functions.
use dataporch.Prelude.{ℕ, Bool, List, Option, ℤ}
use dataporch.Text.{Text}
use dataporch.Fault.{Context, Checked, Result}
use dataporch.Access
use dataporch.Connection.Definition.{Definition}

-- The one `Capability`.
pub data Capability : Type 0 where
  relational_database : Capability

pub data RelationKind : Type 0 where
  table partitioned_table view materialized_view foreign_table virtual_table : RelationKind
  other : Text → RelationKind

pub record DataSource : Type 0 where
  pub id : Text
  pub kind : Text
  pub capabilities : List Capability

pub record Schema : Type 0 where
  pub name : Text
  pub description : Option Text

pub record Table : Type 0 where
  pub name : Text
  pub kind : RelationKind
  pub description : Option Text

pub record TypeReference : Type 0 where
  pub schema : Text
  pub name : Text

pub record DataType : Type 0 where
  pub schema : Text
  pub name : Text
  pub category : Text
  pub length : Option ℤ
  pub precision : Option ℤ
  pub scale : Option ℤ
  pub temporal_precision : Option ℤ
  pub is_array : Bool
  pub element_type : Option TypeReference
  pub domain_base_type : Option TypeReference
  pub affinity : Text

pub record Generated : Type 0 where
  pub kind : Text
  pub expression : Text

-- `Identity` is its `Generation`.
pub record Column : Type 0 where
  pub name : Text
  pub ordinal_position : ℤ
  pub formatted_type : Text
  pub data_type : DataType
  pub nullable : Bool
  pub default_expression : Option Text
  pub identity : Option Text
  pub generated : Option Generated
  pub description : Option Text

pub record ConstraintReference : Type 0 where
  pub schema : Text
  pub table : Text
  pub columns : List Text

pub record Constraint : Type 0 where
  pub name : Text
  pub kind : Text
  pub columns : List Text
  pub deferrable : Bool
  pub initially_deferred : Bool
  pub referenced : Option ConstraintReference
  pub match_type : Text
  pub update_action : Text
  pub delete_action : Text
  pub nulls_not_distinct : Option Bool
  pub check_expression : Option Text
  pub validated : Bool

pub record ListDataSourcesRequest : Type 0 where
  pub search : Text
  pub limit : Option ℤ
  pub cursor : Text

pub record ListDataSourcesResult : Type 0 where
  pub sources : List DataSource
  pub next_cursor : Text

-- The requests for schemas, tables and columns; those for schemas have no schema and no table, and
-- those for tables no table.
pub record ListRelationalRequest : Type 0 where
  pub source_id : Text
  pub schema : Text
  pub table_name : Text
  pub search : Text
  pub include_descriptions : Bool
  pub limit : Option ℤ
  pub cursor : Text

pub record ListRelationalSchemasResult : Type 0 where
  pub source_id : Text
  pub schemas : List Schema
  pub next_cursor : Text

pub record ListRelationalTablesResult : Type 0 where
  pub source_id : Text
  pub schema : Text
  pub tables : List Table
  pub next_cursor : Text

pub record ListRelationalColumnsResult : Type 0 where
  pub source_id : Text
  pub schema : Text
  pub table_name : Text
  pub relation_kind : RelationKind
  pub columns : List Column
  pub constraints : List Constraint
  pub next_cursor : Text

pub record SchemaDiscoveryRequest : Type 0 where
  pub source_id : Text
  pub search : Text
  pub include_descriptions : Bool
  pub limit : ℕ
  pub after_name : Text

pub record SchemaDiscoveryPage : Type 0 where
  pub schemas : List Schema
  pub has_more : Bool

pub record TableDiscoveryRequest : Type 0 where
  pub source_id : Text
  pub schema : Text
  pub search : Text
  pub include_descriptions : Bool
  pub limit : ℕ
  pub after_name : Text

pub record TableDiscoveryPage : Type 0 where
  pub tables : List Table
  pub has_more : Bool

pub record ColumnDiscoveryRequest : Type 0 where
  pub source_id : Text
  pub schema : Text
  pub table_name : Text
  pub search : Text
  pub include_descriptions : Bool
  pub limit : ℕ
  pub after_ordinal : ℤ

pub record ColumnDiscoveryPage : Type 0 where
  pub columns : List Column
  pub relation_kind : RelationKind
  pub constraints : List Constraint
  pub has_more : Bool

pub record SourceRegistry : Type 0 where
  pub list : List Definition
  pub find : Text → Result Definition

abbrev pub Authorizer : Type 0
Authorizer = Context → Access.Request → Checked

pub record RelationalDiscoverer : Type 0 where
  pub kind : Text
  pub list_schemas : Context → SchemaDiscoveryRequest → Result SchemaDiscoveryPage
  pub list_tables : Context → TableDiscoveryRequest → Result TableDiscoveryPage
  pub list_columns : Context → ColumnDiscoveryRequest → Result ColumnDiscoveryPage

pub record RelationalQueryRequest : Type 0 where
  pub kind : Text
  pub source_id : Text
  pub query : Text

pub record RelationalQueryExecutionRequest : Type 0 where
  pub source : Definition
  pub query : Text

pub record RelationalQueryColumn : Type 0 where
  pub name : Text
  pub database_type : Text

pub record RelationalQueryResult : Type 0 where
  pub kind : Text
  pub source_id : Text
  pub columns : List RelationalQueryColumn
  pub rows : List (List (Option Text))
  pub row_count : ℕ
  pub truncated : Bool

pub record RelationalQueryExecutor : Type 0 where
  pub kind : Text
  pub query : Context → RelationalQueryExecutionRequest → Result RelationalQueryResult

-- A dependency that `isNilInterface` finds nil is `none`.
pub record Dependencies : Type 0 where
  pub sources : Option SourceRegistry
  pub authorizer : Option Authorizer
  pub max_limit : ℤ
  pub relational_discoverers : List (Option RelationalDiscoverer)
  pub relational_query_executors : List (Option RelationalQueryExecutor)
