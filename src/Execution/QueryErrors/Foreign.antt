-- ===== src/Execution/QueryErrors/Foreign.antt =====
-- How a query's error is classified when the database package has joined one error value of the
-- repository to a foreign error.
use dataporch.Prelude.{
  ◌≡◌, ◌∙◌, ◌++◌, Option-cases, refl, false, [], ◌∷◌, none, some, arith, inl, inr,
}
use dataporch.Fault.{Fault, foreign, sentinel, failure, database, Sentinel, is, wraps, Context}
use dataporch.Fault.{carries}
use dataporch.Fault.Database.{DatabaseFailure}
use dataporch.Fault.Foreign.{IsForeign, IsForeign-is, is-cons}
use dataporch.Execution.QueryErrors.{
  as_failure, as_database_error, query_category_of, query_failure, database_failure, classify_query,
  classify_query_error, context_category,
}

-- An error that brings no verdict and no report of its own.
abbrev pub IsRaw : Fault → Type 0
IsRaw e = (as_failure e ≡ none) × (as_database_error e ≡ none)

pub wrapped-IsRaw : (s : Sentinel) (e : Fault) → IsRaw e → IsRaw (sentinel s ∷ e)
unfolding as_failure as_database_error
wrapped-IsRaw s e h = h

pub IsForeign-IsRaw : (e : Fault) → IsForeign e → IsRaw e
unfolding as_failure as_database_error
IsForeign-IsRaw [] h = (refl, refl)
IsForeign-IsRaw (foreign n ∷ e) h = IsForeign-IsRaw e h.1
IsForeign-IsRaw (sentinel t ∷ e) h = absurd h.0
IsForeign-IsRaw (failure f ∷ e) h = absurd h.0
IsForeign-IsRaw (database d ∷ e) h = absurd h.0

query_category_of-cons :
    (s : Sentinel) (e : Fault)
    → IsForeign e
    → query_category_of (sentinel s ∷ e) ≡ query_category_of (wraps s)
unfolding query_category_of
query_category_of-cons s e h =
    let same_answer : (t : Sentinel) → is (sentinel s ∷ e) t ≡ is (wraps s) t =
      λ t. is-cons s t e h in
    simp (same_answer, query_category_of)

pub classify_query-cons :
    (ctx : Context) (s : Sentinel) (e : Fault)
    → IsForeign e
    → classify_query ctx (some (sentinel s ∷ e)) ≡ classify_query ctx (some (wraps s))
unfolding classify_query classify_query_error as_failure as_database_error
classify_query-cons ctx s e h = ground (
  arith,
  query_category_of-cons s e h,
  IsForeign-IsRaw e h,
  is-cons s Sentinel.result_too_large e h,
)

pub classify_query-wraps :
    (ctx : Context) (s : Sentinel)
    → context_category ctx ≡ none
    → is (wraps s) Sentinel.result_too_large ≡ false
    → classify_query ctx (some (wraps s)) ≡ query_failure (query_category_of (wraps s))
unfolding classify_query classify_query_error as_failure as_database_error
classify_query-wraps ctx s live small = ground (arith, live, small)

-- An error value of the repository that is joined to a foreign error decides, while the context lives.
pub classify_query-joined :
    (ctx : Context) (s : Sentinel) (e : Fault)
    → context_category ctx ≡ none
    → is (wraps s) Sentinel.result_too_large ≡ false
    → IsForeign e
    → classify_query ctx (some (sentinel s ∷ e)) ≡ query_failure (query_category_of (wraps s))
classify_query-joined ctx s e live small h =
    classify_query-cons ctx s e h ∙ classify_query-wraps ctx s live small

-- A verdict that is joined to a foreign error decides, while the context lives.
pub classify_query-verdict :
    (ctx : Context) (f : DatabaseFailure) (e : Fault)
    → context_category ctx ≡ none
    → IsForeign e
    → classify_query ctx (some (carries f ++ e))
      ≡ database_failure f.category f.retryable f.database_error
unfolding classify_query classify_query_error as_failure is
classify_query-verdict ctx f e live h = elim (Option-cases f.database_error) [
  | inl q ↦ ground (arith, live, q, IsForeign-is e Sentinel.result_too_large h)
  | inr (d, q) ↦ ground (arith, live, q, IsForeign-is e Sentinel.result_too_large h)
]
