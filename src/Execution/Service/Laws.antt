-- ===== src/Execution/Service/Laws.antt =====
-- What `New` of internal/execution/discovery_service.go makes of its dependencies.
use dataporch.Prelude.{◌≡◌, ◌<◌, [], some, arith, ℤ, pos, negsuc, ℕ}
use dataporch.Text.{Text}
use dataporch.Fault.{ok, or_fail, >>=-eq-ok, or_fail-eq-ok}
use dataporch.Assoc.{lookup}
use dataporch.Adapters.{index_adapters, adapter_of}
use dataporch.Adapters.Laws.{lookup-index_adapters}
use dataporch.Execution.Types.{Dependencies}
use dataporch.Execution.Service.{Service, new_service, positive_limit}

positive_limit_lem : (z : ℤ) (n : ℕ) → positive_limit z ≡ ok n → (z ≡ pos n) × (0 < n)
unfolding positive_limit
positive_limit_lem (pos k) n h = ground arith
positive_limit_lem (negsuc k) n h = cc

-- A service that `New` makes has the given registry, authorizer and positive maximum, and leads from
-- a kind to the discoverer and to the query executor of that kind among those given.
pub new_service_lem :
    (d : Dependencies) (s : Service) (kind : Text)
    → new_service d ≡ ok s
    → (d.sources ≡ some s.sources)
      × (d.authorizer ≡ some s.authorizer)
      × (d.max_limit ≡ pos s.max_limit)
      × (0 < s.max_limit)
      × (lookup kind s.relational ≡ adapter_of (λ a. a.kind) kind d.relational_discoverers)
      × (lookup kind s.relational_queries
          ≡ adapter_of (λ a. a.kind) kind d.relational_query_executors)
unfolding new_service
new_service_lem d s kind h =
    let a = >>=-eq-ok (or_fail d.sources []) _ h in
    let b = >>=-eq-ok (or_fail d.authorizer []) _ a.2 in
    let c = >>=-eq-ok (positive_limit d.max_limit) _ b.2 in
    let e = >>=-eq-ok (index_adapters (λ a. a.kind) [] d.relational_discoverers) _ c.2 in
    let f = >>=-eq-ok (index_adapters (λ a. a.kind) [] d.relational_query_executors) _ e.2 in
    let p = or_fail-eq-ok _ _ _ a.1 in
    let q = or_fail-eq-ok _ _ _ b.1 in
    let l = positive_limit_lem _ _ c.1 in
    let r = lookup-index_adapters (λ a. a.kind) d.relational_discoverers e.0 kind e.1 in
    let t = lookup-index_adapters (λ a. a.kind) d.relational_query_executors f.0 kind f.1 in
    let made = f.2 in
    (
      ground (arith, p, made),
      ground (arith, q, made),
      ground (arith, l.0, made),
      ground (arith, l.1, made),
      ground (arith, r, made),
      ground (arith, t, made),
    )
