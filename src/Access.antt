-- ===== src/Access.antt =====
-- internal/access/allow_all.go: the authorizer of this edition, which allows every request that has
-- an action and a live context.
use dataporch.Prelude.{not, [], none, some}
use dataporch.Text.{Text, bytes, same}
use dataporch.Fault.{Checked, ok, err, wraps, Context, nil_context, context, ◌>>◌, require}

-- `Action`, by its text.
abbrev pub list_data_sources : Text
list_data_sources = bytes "list_data_sources"

abbrev pub list_relational_schemas : Text
list_relational_schemas = bytes "list_relational_database_schemas"

abbrev pub list_relational_tables : Text
list_relational_tables = bytes "list_relational_database_tables"

abbrev pub list_relational_columns : Text
list_relational_columns = bytes "list_relational_database_columns"

abbrev pub query_relational_database : Text
query_relational_database = bytes "query_relational_database"

pub record Request : Type 0 where
  pub action : Text
  pub kind : Text
  pub source_id : Text

unfoldable pub authorize : Context → Request → Checked
authorize nil_context request = err []
authorize (context e) request = do
  elim (e 0) [ none ↦ ok tt | some s ↦ err (wraps s) ]
  require (not (same request.action [])) []
