-- ===== src/Execution/Relational/Gate.antt =====
-- What `relationalDiscoverer` and `effectiveLimit` of internal/execution/discovery_service.go let
-- through.
use dataporch.Prelude.{ℕ, ◌≤◌, ◌<◌, ◌≡◌, ◌⊎◌, [], Option, none, some, arith, ℤ, pos, negsuc}
use dataporch.Text.{Text}
use dataporch.Fault.{ok, Context, later, >>=-eq-ok, or_else-eq-ok, or_fail-eq-ok}
use dataporch.Assoc.{lookup}
use dataporch.Connection.Definition.{Definition, validate_id}
use dataporch.Execution.Types.{RelationalDiscoverer}
use dataporch.Execution.Service.{
  Service, validate_context, effective_limit, validate_source_id, relational_discoverer, authorized,
  find_source,
}

-- An adapter that was reached: the request was allowed and the source is registered with its kind.
pub record IsReached (s : Service) (ctx : Context) (id action : Text) (d : RelationalDiscoverer)
    : Type 0 where
  pub definition : Definition
  pub valid : validate_id id ≡ ok tt
  pub allowed :
      s.authorizer (later ctx) (record { action = action; kind = []; source_id = id }) ≡ ok tt
  pub registered : s.sources.find id ≡ ok definition
  pub supported : lookup definition.kind s.relational ≡ some d

-- An adapter that `relational_discoverer` hands out was reached by a valid identifier, an allowed
-- request and a registered source of the adapter's kind.
pub relational_discoverer-IsReached :
    (s : Service) (ctx : Context) (id action : Text) (d : RelationalDiscoverer)
    → relational_discoverer s ctx id action ≡ ok d
    → IsReached s ctx id action d
unfolding relational_discoverer validate_source_id
relational_discoverer-IsReached s ctx id action d h =
    let a = >>=-eq-ok (validate_context ctx) _ h in
    let b = >>=-eq-ok (validate_source_id id) _ a.2 in
    let e =
      >>=-eq-ok (authorized s (later ctx) (record { action = action; kind = []; source_id = id })) _
        b.2 in
    let f = >>=-eq-ok (find_source s id) _ e.2 in
    record {
      definition = f.0;
      valid = or_else-eq-ok _ _ _ b.1;
      allowed = or_else-eq-ok _ _ _ e.1;
      registered = or_else-eq-ok _ _ _ f.1;
      supported = or_fail-eq-ok _ _ _ f.2;
    }

-- A limit that is accepted is what was asked for, or the maximum where nothing was, and is at most
-- the maximum; an asked one is positive.
pub effective_limit-le :
    (s : Service) (asked : Option ℤ) (n : ℕ)
    → effective_limit s asked ≡ ok n
    → (n ≤ s.max_limit)
      × (((asked ≡ none) × (n ≡ s.max_limit)) ⊎ ((asked ≡ some (pos n)) × (0 < n)))
unfolding effective_limit
effective_limit-le s none n h = ground arith
effective_limit-le s (some (pos m)) n h = ground arith
effective_limit-le s (some (negsuc m)) n h = cc
