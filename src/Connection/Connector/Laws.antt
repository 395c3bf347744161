-- ===== src/Connection/Connector/Laws.antt =====
-- What `Resolve` of internal/connection/connector.go finds.
use dataporch.Prelude.{◌≡◌, List, Option}
use dataporch.Text.{Text}
use dataporch.Fault.{ok, wraps, adapter_not_found, or_fail}
use dataporch.Adapters.{adapter_of}
use dataporch.Adapters.Laws.{lookup-index_adapters}
use dataporch.Connection.Connector.{Adapter, Connector, new_connector, adapter_for}

-- A connector that was made from a list of adapters resolves a kind to the adapter of that kind in
-- the list, and to `ErrAdapterNotFound` if there is none.
pub adapter_for-new_connector :
    (adapters : List (Option Adapter)) (c : Connector) (kind : Text)
    → new_connector adapters ≡ ok c
    → adapter_for c kind
      ≡ or_fail (adapter_of (λ a. a.kind) kind adapters) (wraps adapter_not_found)
unfolding new_connector adapter_for
adapter_for-new_connector adapters c kind h =
    rw (lookup-index_adapters (λ a. a.kind) adapters c kind h)
