-- ===== src/Fault.antt =====
-- Go errors and contexts. An error is the list of what `errors.Is` and `errors.As` can find in it,
-- outermost first: wrapping by `%w` and `errors.Join` join such lists, an error that no caller can
-- name is the empty list, and the text of a message is left out. A context answers each call of
-- `Err` anew, so the n-th answer is a function of n.
pub mod Database
pub mod Foreign
use dataporch.Prelude.{
  ℕ, suc, ◌≡◌, refl, Bool, true, false, ◌||◌, List, [], ◌∷◌, ◌++◌, ◌⊎◌, inl, inr, Option, none,
  some, ◌==◌, arith,
}
use Database.{DatabaseError, DatabaseFailure}

-- The error values that the packages declare, and those of package context and package io.
pub data Sentinel : Type 0 where
  -- package context
  canceled deadline_exceeded : Sentinel
  -- internal/execution/errors.go
  invalid_limit invalid_request invalid_cursor source_not_found unsupported_source_capability
        schema_not_found relation_not_found unsupported_relation_kind dataporch_access_denied
        database_permission_denied database_unavailable query_timeout cancelled internal :
      Sentinel
  -- internal/execution/query_errors.go and query.go
  invalid_query read_only_violation query_cancelled result_too_large database_authentication_failed
        database_conflict database_resource_exhausted database_error source_kind_mismatch :
      Sentinel
  -- internal/connection
  connection_unavailable database_not_found definition_not_found invalid_definition
        adapter_not_found invalid_connection_string import_unavailable :
      Sentinel
  -- internal/secret and internal/secret/local
  invalid_reference secret_not_found wrong_provider : Sentinel
  -- internal/mcptoken
  token_exists no_token invalid_token token_unavailable : Sentinel
  -- the stores on disk
  store_corrupt invalid_permissions invalid_path : Sentinel
  -- internal/mcpcontrol
  invalid_credential : Sentinel
  -- the openers of the database packages
  unsupported_kind open_timeout runtime_closed shutdown_timeout open_invalidated
        runtime_context_required runtime_invalid_id sqlite_file_unavailable runtime_unavailable :
      Sentinel

tag : Sentinel → ℕ
tag canceled = 0
tag deadline_exceeded = 1
tag invalid_limit = 2
tag invalid_request = 3
tag invalid_cursor = 4
tag source_not_found = 5
tag unsupported_source_capability = 6
tag schema_not_found = 7
tag relation_not_found = 8
tag unsupported_relation_kind = 9
tag dataporch_access_denied = 10
tag database_permission_denied = 11
tag database_unavailable = 12
tag query_timeout = 13
tag cancelled = 14
tag internal = 15
tag invalid_query = 16
tag read_only_violation = 17
tag query_cancelled = 18
tag result_too_large = 19
tag database_authentication_failed = 20
tag database_conflict = 21
tag database_resource_exhausted = 22
tag database_error = 23
tag source_kind_mismatch = 24
tag connection_unavailable = 25
tag database_not_found = 26
tag definition_not_found = 27
tag invalid_definition = 28
tag adapter_not_found = 29
tag invalid_connection_string = 30
tag import_unavailable = 31
tag invalid_reference = 32
tag secret_not_found = 33
tag wrong_provider = 34
tag token_exists = 35
tag no_token = 36
tag invalid_token = 37
tag token_unavailable = 38
tag store_corrupt = 39
tag invalid_permissions = 40
tag invalid_path = 41
tag unsupported_kind = 42
tag open_timeout = 43
tag runtime_closed = 44
tag shutdown_timeout = 45
tag open_invalidated = 46
tag runtime_context_required = 47
tag runtime_invalid_id = 48
tag sqlite_file_unavailable = 49
tag runtime_unavailable = 50
tag invalid_credential = 51

pub data Leaf : Type 0 where
  sentinel : Sentinel → Leaf
  failure : DatabaseFailure → Leaf
  database : DatabaseError → Leaf
  -- an error value of a package outside the repository, by a number
  foreign : ℕ → Leaf

abbrev pub Fault : Type 0
Fault = List Leaf

-- An error that wraps one sentinel.
abbrev pub wraps : Sentinel → Fault
wraps s = sentinel s ∷ []

-- A `*DatabaseFailure` as an error: it unwraps to its report.
abbrev pub carries : DatabaseFailure → Fault
carries f = failure f ∷ elim f.database_error [ none ↦ [] | some e ↦ database e ∷ [] ]

leaf_is : Leaf → Sentinel → Bool
unfolding tag
leaf_is (sentinel s) t = tag s == tag t
leaf_is _ t = false

-- `errors.Is`.
unfoldable pub is : Fault → Sentinel → Bool
unfolding leaf_is
is [] t = false
is (l ∷ ls) t = leaf_is l t || is ls t

pub data Result {ℓ} (A : Type ℓ) : Type ℓ where
  ok : A → Result A
  err : Fault → Result A

-- A function that returns an `error` alone.
abbrev pub Checked : Type 0
Checked = Result (Unit {0})

infixl 5 ◌>>=◌
abbrev pub ◌>>=◌ {i j} :
    {Value : Type i} {Next : Type j} → Result Value → (Value → Result Next) → Result Next
err fault >>= next = err fault
ok value >>= next = next value

infixl 5 ◌>>◌
abbrev pub ◌>>◌ {j} : {Next : Type j} → Checked → Result Next → Result Next
checked >> next = checked >>= λ _. next

-- `if !b { return ..., e }`.
abbrev pub require : Bool → Fault → Result (Unit {0})
require true e = ok tt
require false e = err e

-- `if err != nil { return ..., f(err) }`.
abbrev pub or_else {ℓ} : {A : Type ℓ} → Result A → (Fault → Fault) → Result A
or_else (ok a) f = ok a
or_else (err e) f = err (f e)

-- `value, exists := …; if !exists { return ..., e }`.
abbrev pub or_fail {ℓ} : {A : Type ℓ} → Option A → Fault → Result A
or_fail none e = err e
or_fail (some a) e = ok a

-- Inversion of a successful bind, for proofs where the parts stay shut.
pub >>=-eq-ok {i j} :
    {Value : Type i} {Next : Type j} (r : Result Value) (next : Value → Result Next) {n : Next}
    → (r >>= next) ≡ ok n
    → (v : Value) × (r ≡ ok v) × (next v ≡ ok n)
>>=-eq-ok (err fault) next h = cc
>>=-eq-ok (ok v) next h = (v, refl, h)

pub or_else-eq-ok {ℓ} :
    {A : Type ℓ} (r : Result A) (f : Fault → Fault) (a : A) → or_else r f ≡ ok a → r ≡ ok a
or_else-eq-ok (ok x) f a h = h
or_else-eq-ok (err e) f a h = cc

pub or_fail-eq-ok {ℓ} :
    {A : Type ℓ} (o : Option A) (e : Fault) (a : A) → or_fail o e ≡ ok a → o ≡ some a
or_fail-eq-ok (some x) e a h = ground arith
or_fail-eq-ok none e a h = cc

pub Result-cases {ℓ} :
    {A : Type ℓ} (r : Result A) → ((a : A) × (r ≡ ok a)) ⊎ ((e : Fault) × (r ≡ err e))
Result-cases (ok a) = inl (a, refl)
Result-cases (err e) = inr (e, refl)

-- A `context.Context`: nil, or what its n-th call of `Err` returns.
pub data Context : Type 0 where
  nil_context : Context
  context : (ℕ → Option Sentinel) → Context

abbrev pub background : Context
background = context (λ n. none)

-- The context of a query with a deadline of its own: `context.Cause` and `Err` when they are called.
pub record QueryContext : Type 0 where
  pub cause : Option Fault
  pub ended : Option Sentinel

-- The context as it answers after one more call of `Err`.
abbrev pub later : Context → Context
later nil_context = nil_context
later (context e) = context (λ n. e (suc n))

wrapped_is : is (wraps dataporch_access_denied ++ wraps canceled) canceled ≡ true
unfolding is
wrapped_is = refl
