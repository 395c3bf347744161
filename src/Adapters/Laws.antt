-- ===== src/Adapters/Laws.antt =====
-- What an index of adapters by kind holds.
use dataporch.Prelude.{◌≡◌, List, [], ◌∷◌, Option, none, some, arith}
use dataporch.Text.{Text, same_iff}
use dataporch.Fault.{ok}
use dataporch.Assoc.{Assoc, lookup, insert, lookup-insert}
use dataporch.Adapters.{index_adapters, adapter_of}

module _ {A : Type 0} (kind : A → Text) where
  index_adapters_lem :
      (index : Assoc A) (adapters : List (Option A)) (m : Assoc A) (k : Text)
      → index_adapters kind index adapters ≡ ok m
      → lookup k m ≡ (elim (lookup k index) [ some a ↦ some a | none ↦ adapter_of kind k adapters ])
  unfolding index_adapters adapter_of
  index_adapters_lem index [] m k h = ground arith
  index_adapters_lem index (none ∷ rest) m k h = ground arith
  index_adapters_lem index (some a ∷ rest) m k h = ground (
    arith,
    index_adapters_lem (insert (kind a) a index) rest m k,
    lookup-insert (kind a) k a index,
    same_iff (kind a) k,
  )

  pub lookup-index_adapters :
      (adapters : List (Option A)) (m : Assoc A) (k : Text)
      → index_adapters kind [] adapters ≡ ok m
      → lookup k m ≡ adapter_of kind k adapters
  unfolding lookup
  lookup-index_adapters adapters m k h = index_adapters_lem [] adapters m k h
