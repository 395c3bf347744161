-- ===== src/Connection/Manager.antt =====
-- internal/connection/manager.go: the registry of definitions, and the resolution of their secrets.
-- The lock makes each operation one step. The resolver is what `NewManager` is given.
pub mod Laws
pub mod Prepare
use dataporch.Prelude.{
  ℕ, ◌≡◌, Bool, true, false, List, [], ◌∷◌, ◌++◌, Option, none, some, if◌then◌else◌, map,
}
use dataporch.Text.{Text}
use dataporch.Fault.{
  Fault, Checked, Result, ok, err, wraps, invalid_definition, database_not_found,
  connection_unavailable, ◌>>=◌, ◌>>◌, require, or_else, or_fail, is, Context, nil_context, context,
  later, sentinel,
}
use dataporch.Assoc.{Assoc, lookup, insert, keys, values}
use dataporch.Sort.{sort}
use dataporch.Connection.Definition.{Definition, ResolvedDefinition, validate}

-- `SecretResolver.Resolve`.
abbrev pub Resolver : Type 0
Resolver = Context → Text → Result Text

pub record Manager : Type 0 where
  pub resolver : Resolver
  pub definitions : Assoc Definition

-- `RegistrationResult`: the definition that was replaced, if one was.
abbrev pub RegistrationResult : Type 0
RegistrationResult = Option Definition

-- The loop of `NewManager`.
unfoldable pub manage : Assoc Definition → List Definition → Result (Assoc Definition)
manage managed [] = ok managed
manage managed (d ∷ rest) = do
  validate d
  elim (lookup d.id managed) [ none ↦ ok tt | some old ↦ err (wraps invalid_definition) ]
  manage (insert d.id d managed) rest

unfoldable pub new_manager : Option Resolver → List Definition → Result Manager
new_manager none definitions = err []
new_manager (some resolver) definitions = do
  managed ← manage [] definitions
  ok (record { resolver = resolver; definitions = managed })

unfoldable pub register : Definition → Manager → Result (Manager × RegistrationResult)
register d m = do
  validate d
  ok (record m { definitions = insert d.id d m.definitions }, lookup d.id m.definitions)

-- `Lookup`.
unfoldable pub find : Text → Manager → Result Definition
find id m = or_fail (lookup id m.definitions) (wraps database_not_found)

-- `List`.
unfoldable pub list : Manager → List Definition
list m = sort (λ d. d.id) (values m.definitions)

-- The loop of `Prepare` over the sorted names; a name is one of the map's keys.
unfoldable pub resolve_all :
    Resolver → Context → Assoc Text → List Text → Assoc Text → Result (Assoc Text)
resolve_all resolve ctx refs [] done = ok done
resolve_all resolve ctx refs (name ∷ names) done = do
  ref ← ok (elim (lookup name refs) [ none ↦ [] | some r ↦ r ])
  value ← or_else (resolve ctx ref) (λ e. wraps connection_unavailable)
  resolve_all resolve ctx refs names (insert name value done)

-- `ctx == nil` and `ctx.Err()`, each with the error that it leads to.
abbrev pub prepare_context : Context → Checked
prepare_context nil_context = err (wraps connection_unavailable)
prepare_context (context e) = elim (e 0) [
  | none ↦ ok tt
  | some s ↦ err (sentinel connection_unavailable ∷ wraps s)
]

unfoldable pub prepare : Context → Text → Manager → Result ResolvedDefinition
prepare ctx id m = do
  prepare_context ctx
  d ← or_else (find id m) λ e.
      if is e database_not_found
      then sentinel connection_unavailable ∷ wraps database_not_found
      else wraps connection_unavailable
  secrets ← resolve_all m.resolver (later ctx) d.secret_refs (sort (λ n. n) (keys d.secret_refs)) []
  ok (record { id = d.id; kind = d.kind; settings = d.settings; secrets = secrets })
