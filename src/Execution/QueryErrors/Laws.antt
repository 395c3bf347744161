-- ===== src/Execution/QueryErrors/Laws.antt =====
-- What a client can learn from a failed query.
use dataporch.Prelude.{
  ◌≡◌, ◌≢◌, refl, sym, subst, ◌⊎◌, inl, inr, Bool, true, false, [], Option, none, some, arith,
  Bool-cases, Option-cases,
}
use dataporch.Text.{Text, bytes, same}
use dataporch.Fault.{Fault, Sentinel, is, Context}
use dataporch.Fault.Database.{
  DatabaseError, DatabaseFailure, Category, database_unavailable, database_conflict, database_error,
  result_too_large,
}
use dataporch.Execution.Errors.{Failure}
use dataporch.Execution.QueryErrors.{
  query_message_of, is_query_retryable, query_failure, database_message, database_failure, sqlstate,
  classify_database_error, as_failure, as_database_error, query_category_of, classify_query_error,
  context_category, classify_query,
}

abbrev Speaks : Category → Type 0
Speaks c = query_message_of c ≢ []

query_category_of-Speaks : (e : Fault) → Speaks (query_category_of e)
unfolding query_category_of query_message_of
query_category_of-Speaks e = ground arith

context_category-Speaks : (ctx : Context) (c : Category) → context_category ctx ≡ some c → Speaks c
unfolding context_category query_message_of
context_category-Speaks ctx c e h = ground arith

database_message-ne : (d : Option DatabaseError) → database_message d ≢ []
unfolding database_message same
database_message-ne none h = cc
database_message-ne (some d) h = ground arith

-- To try again is offered for a conflict and for an unavailable database only.
abbrev IsRetried : Category × Bool → Type 0
IsRetried p = p.1 ≡ true → (p.0 ≡ database_conflict) ⊎ (p.0 ≡ database_unavailable)

sqlstate-IsRetried : (code : Text) → IsRetried (sqlstate code)
unfolding sqlstate
sqlstate-IsRetried code = ground arith

database_failure_lem :
    (c : Category) (retry : Bool) (d : Option DatabaseError)
    → ((database_failure c retry d).message ≢ [])
      × ((database_failure c retry d).database_error ≡ d)
      × ((database_failure c retry d).retryable ≡ retry)
      × ((database_failure c retry d).category ≡ some c)
unfolding database_failure
database_failure_lem c retry d = (database_message-ne d, refl, refl, refl)

-- Where a failure comes from: a fixed row of the table, the verdict of the adapter, or a report of
-- the database that was classified by its code.
data Origin (ctx : Context) (e : Fault) (r : Failure) : Type 0 where
  fixed : (c : Category) → Speaks c → r ≡ query_failure c → Origin ctx e r
  adapter :
      (f : DatabaseFailure)
      → context_category ctx ≡ none
      → is e Sentinel.result_too_large ≡ false
      → as_failure e ≡ some f
      → r ≡ database_failure f.category f.retryable f.database_error
      → Origin ctx e r
  report :
      (d : DatabaseError) (c : Category) (retry : Bool)
      → context_category ctx ≡ none
      → is e Sentinel.result_too_large ≡ false
      → as_failure e ≡ none
      → as_database_error e ≡ some d
      → IsRetried (c, retry)
      → r ≡ database_failure c retry (some d)
      → Origin ctx e r

result_too_large-Speaks : Speaks result_too_large
unfolding query_message_of
result_too_large-Speaks h = ground arith

classify_database_error-Origin :
    (ctx : Context) (e : Fault) (d : DatabaseError)
    → context_category ctx ≡ none
    → is e Sentinel.result_too_large ≡ false
    → as_failure e ≡ none
    → as_database_error e ≡ some d
    → Origin ctx e (classify_database_error d)
unfolding classify_database_error
classify_database_error-Origin ctx e d live small no_verdict found =
    elim (Bool-cases (same d.kind (bytes "postgres"))) [
      | inl h ↦
          report d (sqlstate d.code).0 (sqlstate d.code).1 live small no_verdict found
            (sqlstate-IsRetried d.code) (rw h)
      | inr h ↦ report d database_error false live small no_verdict found (λ k. ground arith) (rw h)
    ]

passed_on :
    (ctx : Context) (e : Fault) {d : DatabaseError}
    → context_category ctx ≡ none
    → is e Sentinel.result_too_large ≡ false
    → as_failure e ≡ none
    → as_database_error e ≡ some d
    → classify_query ctx (some e) ≡ classify_database_error d
unfolding classify_query classify_query_error
passed_on ctx e q small g k = ground arith

classify_query-Origin : (ctx : Context) (e : Fault) → Origin ctx e (classify_query ctx (some e))
unfolding classify_query classify_query_error
classify_query-Origin ctx e = elim (Option-cases (context_category ctx)) [
  | inr (c, q) ↦ fixed c (context_category-Speaks ctx c q) (rw (q, classify_query))
  | inl q ↦ elim (Bool-cases (is e Sentinel.result_too_large)) [
    | inl large ↦
        fixed result_too_large result_too_large-Speaks
          (rw (q, classify_query) (rw (large, classify_query_error)))
    | inr small ↦ elim (Option-cases (as_failure e)) [
      | inr (f, g) ↦
          adapter f q small g (
            rw (q, classify_query)
              (rw (small, classify_query_error) (rw (g, classify_query_error))))
      | inl g ↦ elim (Option-cases (as_database_error e)) [
        | inr (d, k) ↦
            subst (Origin ctx e) (sym (passed_on ctx e q small g k))
              (classify_database_error-Origin ctx e d q small g k)
        | inl k ↦
            fixed (query_category_of e) (query_category_of-Speaks e)
              (ground (arith, q, small, g, k))
      ]
    ]
  ]
]

-- A report of the database reaches the client only while the request's context is live, and only if
-- the error carries it: alone, or in a failure that the adapter classified.
abbrev pub IsReported : Context → Fault → DatabaseError → Type 0
IsReported ctx e d =
    (context_category ctx ≡ none)
    × (is e Sentinel.result_too_large ≡ false)
    × ((as_database_error e ≡ some d)
        ⊎ ((f : DatabaseFailure) × (as_failure e ≡ some f) × (f.database_error ≡ some d)))

Origin-category :
    (ctx : Context) (e : Fault) (r : Failure)
    → Origin ctx e r
    → (r.category ≢ none) × (r.message ≢ [])
unfolding query_failure
Origin-category ctx e r (fixed c speaks q) = rw q ((λ h. ground arith), speaks)
Origin-category ctx e r (adapter f live small found q) =
    let l = database_failure_lem f.category f.retryable f.database_error in
    rw q ((λ h. ground arith), l.0)
Origin-category ctx e r (report d c retry live small no_verdict found retried q) =
    let l = database_failure_lem c retry (some d) in rw q ((λ h. ground arith), l.0)

Origin-IsReported :
    (ctx : Context) (e : Fault) (r : Failure) (d : DatabaseError)
    → Origin ctx e r
    → r.database_error ≡ some d
    → IsReported ctx e d
unfolding query_failure
Origin-IsReported ctx e r d (fixed c speaks q) h = ground arith
Origin-IsReported ctx e r d (adapter f live small found q) h =
    let l = database_failure_lem f.category f.retryable f.database_error in
    (live, small, inr (f, found, ground arith))
Origin-IsReported ctx e r d (report x c retry live small no_verdict found retried q) h =
    let l = database_failure_lem c retry (some x) in (live, small, inl (ground arith))

-- A failed query always has a category and a message that is not empty.
pub classify_query_speaks :
    (ctx : Context) (e : Fault)
    → ((classify_query ctx (some e)).category ≢ none) × ((classify_query ctx (some e)).message ≢ [])
classify_query_speaks ctx e = Origin-category ctx e _ (classify_query-Origin ctx e)

-- If a failed query reports the database's own error, the context has not ended, the result was
-- not too large, and the error carries that report, alone or in a verdict of the adapter.
pub classify_query_reports :
    (ctx : Context) (e : Fault) (d : DatabaseError)
    → (classify_query ctx (some e)).database_error ≡ some d
    → IsReported ctx e d
classify_query_reports ctx e d = Origin-IsReported ctx e _ d (classify_query-Origin ctx e)

is_query_retryable_lem :
    (c : Category)
    → is_query_retryable c ≡ true
    → (c ≡ database_conflict) ⊎ (c ≡ database_unavailable)
unfolding is_query_retryable
is_query_retryable_lem database_conflict h = inl refl
is_query_retryable_lem database_unavailable h = inr refl
is_query_retryable_lem _ h = ground arith

Origin-IsRetried :
    (ctx : Context) (e : Fault) (r : Failure)
    → Origin ctx e r
    → as_failure e ≡ none
    → r.retryable ≡ true
    → (r.category ≡ some database_conflict) ⊎ (r.category ≡ some database_unavailable)
unfolding query_failure
Origin-IsRetried ctx e r (fixed c speaks q) h k = ground (arith, is_query_retryable_lem c)
Origin-IsRetried ctx e r (adapter f live small found q) h k = absurd (ground arith)
Origin-IsRetried ctx e r (report d c retry live small no_verdict found retried q) h k =
    ground (arith, database_failure_lem c retry (some d), retried)

-- Without a verdict of the adapter, a query may be tried again only after a conflict or when the
-- database is unavailable.
pub classify_query_retries :
    (ctx : Context) (e : Fault)
    → as_failure e ≡ none
    → (classify_query ctx (some e)).retryable ≡ true
    → ((classify_query ctx (some e)).category ≡ some database_conflict)
      ⊎ ((classify_query ctx (some e)).category ≡ some database_unavailable)
classify_query_retries ctx e = Origin-IsRetried ctx e _ (classify_query-Origin ctx e)
