-- ===== src/Connection/Connector.antt =====
-- internal/connection/connector.go.
pub mod Laws
use dataporch.Prelude.{List, [], Option}
use dataporch.Text.{Text}
use dataporch.Fault.{Result, wraps, adapter_not_found, or_fail}
use dataporch.Assoc.{Assoc, lookup}
use dataporch.Adapters.{index_adapters}
use dataporch.Connection.Definition.{ParsedConnection}

pub record Adapter : Type 0 where
  pub kind : Text
  pub parse_connection_string : Text → Result ParsedConnection

-- Its `adapters`.
abbrev pub Connector : Type 0
Connector = Assoc Adapter

unfoldable pub new_connector : List (Option Adapter) → Result Connector
new_connector adapters = index_adapters (λ a. a.kind) [] adapters

-- `Resolve`.
unfoldable pub adapter_for : Connector → Text → Result Adapter
adapter_for c kind = or_fail (lookup kind c) (wraps adapter_not_found)
