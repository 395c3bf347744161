-- ===== src/Postgres/Errors/Laws.antt =====
-- What the client of a query is told of an error of PostgreSQL.
use dataporch.Prelude.{
  ◌≡◌, refl, ◌∙◌, ◌∷◌, [], Option-cases, none, some, arith, if◌then◌else◌, false, Bool-cases, inl,
  inr,
}
use dataporch.Text.{bytes, same_self}
use dataporch.Fault.{Fault, Sentinel, sentinel, database, is, Context}
use dataporch.Fault.Foreign.{IsForeign, IsForeign-is}
use dataporch.Fault.Database.{database_unavailable, internal}
use dataporch.Execution.Errors.{Failure}
use dataporch.Execution.QueryErrors.{
  as_failure, as_database_error, classify_query, classify_query_error, classify_database_error,
  context_category, database_failure, query_failure, query_category_of, sqlstate,
}
use dataporch.Execution.QueryErrors.Foreign.{IsForeign-IsRaw, classify_query-joined}
use dataporch.Postgres.Errors.{
  Driver, PgError, project_postgres_error, project_relational_query_error, classification,
}

-- What the client is told of a foreign error: the report of PostgreSQL under the category of its
-- SQLSTATE, or whether it is safe to try again.
abbrev pub answer : Driver → Fault → Failure
answer driver e = elim (driver.as_pg e) [
  | some p ↦
      database_failure (sqlstate p.code).0 (sqlstate p.code).1 (some (project_postgres_error p))
  | none ↦ query_failure (if driver.safe_to_retry e then database_unavailable else internal)
]

reported :
    (ctx : Context) (p : PgError)
    → context_category ctx ≡ none
    → classify_query ctx (some (database (project_postgres_error p) ∷ []))
      ≡ database_failure (sqlstate p.code).0 (sqlstate p.code).1 (some (project_postgres_error p))
unfolding classify_query classify_query_error as_failure as_database_error classify_database_error
    is project_postgres_error
reported ctx p live = ground (arith, live, same_self (bytes "postgres"))

classification-foreign :
    (driver : Driver) (e : Fault)
    → IsForeign e
    → classification driver e
      ≡ (if driver.safe_to_retry e then Sentinel.database_unavailable else Sentinel.internal)
unfolding classification
classification-foreign driver e h =
    let never : (s : Sentinel) → is e s ≡ false = λ s. IsForeign-is e s h in
    simp (never, classification)

-- While a request is live, a foreign error that a query meets at PostgreSQL is answered as `answer`
-- says: a report of PostgreSQL under the category of its SQLSTATE, any other error as an unavailable
-- database where it is safe to try again, and as a failure without details otherwise.
pub project_relational_query_error-classify :
    (driver : Driver) (ctx : Context) (e : Fault)
    → IsForeign e
    → context_category ctx ≡ none
    → classify_query ctx (some (project_relational_query_error driver e)) ≡ answer driver e
unfolding project_relational_query_error is query_category_of
project_relational_query_error-classify driver ctx e h live = elim (Option-cases (driver.as_pg e)) [
  | inr (p, q) ↦
      let l : project_relational_query_error driver e ≡ database (project_postgres_error p) ∷ [] =
        ground (arith, IsForeign-IsRaw e h, q) in
      rw l (reported ctx p live ∙ ground (arith, q))
  | inl q ↦
      let l : project_relational_query_error driver e ≡ sentinel (classification driver e) ∷ e =
        ground (arith, IsForeign-IsRaw e h, q) in
      let c = classification-foreign driver e h in
      elim (Bool-cases (driver.safe_to_retry e)) [
        | inl u ↦
            let s : classification driver e ≡ Sentinel.database_unavailable =
              ground (arith, c, u) in
            rw l (
              rw s (
                classify_query-joined ctx Sentinel.database_unavailable e live refl h
                ∙ ground (arith, q, u)))
        | inr u ↦
            let s : classification driver e ≡ Sentinel.internal = ground (arith, c, u) in
            rw l (
              rw s
                (classify_query-joined ctx Sentinel.internal e live refl h ∙ ground (arith, q, u)))
      ]
]
