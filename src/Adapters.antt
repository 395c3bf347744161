-- ===== src/Adapters.antt =====
-- The index of adapters by kind, which `New` of internal/execution/discovery_service.go builds twice
-- and `NewConnector` of internal/connection/connector.go once. An adapter that is nil is `none`.
pub mod Laws
use dataporch.Prelude.{not, List, [], ◌∷◌, Option, none, some, if◌then◌else◌}
use dataporch.Text.{Text, same}
use dataporch.Fault.{Result, ok, err, ◌>>=◌, ◌>>◌, require}
use dataporch.Assoc.{Assoc, lookup, insert}

-- The loop: every adapter is there, has a kind, and no other has that kind.
module _ {A : Type 0} (kind : A → Text) where
  unfoldable pub index_adapters : Assoc A → List (Option A) → Result (Assoc A)
  index_adapters index [] = ok index
  index_adapters index (none ∷ rest) = err []
  index_adapters index (some a ∷ rest) = do
    require (not (same (kind a) [])) []
    elim (lookup (kind a) index) [ none ↦ ok tt | some old ↦ err [] ]
    index_adapters (insert (kind a) a index) rest

  -- The first adapter of a kind in the order in which they are given.
  unfoldable pub adapter_of : Text → List (Option A) → Option A
  adapter_of k [] = none
  adapter_of k (none ∷ rest) = adapter_of k rest
  adapter_of k (some a ∷ rest) = if same (kind a) k then some a else adapter_of k rest
