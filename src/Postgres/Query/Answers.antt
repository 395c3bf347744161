-- ===== src/Postgres/Query/Answers.antt =====
-- What a query of internal/connection/postgres/query.go answers.
use dataporch.Prelude.{◌≡◌, inl, inr, true, false, [], ◌∷◌, ◌++◌, none, some, arith}
use dataporch.Fault.{Fault, Result, ok, err, Result-cases, Context, later, or_else-eq-ok}
use dataporch.Fault.Foreign.{IsForeign, IsForeign-any}
use dataporch.Execution.Types.{RelationalQueryExecutionRequest, RelationalQueryResult}
use dataporch.Execution.QueryErrors.{classify_query, context_category}
use dataporch.Execution.QueryErrors.Foreign.{IsForeign-IsRaw}
use dataporch.Postgres.Budget.{Marshal}
use dataporch.Postgres.Errors.{Driver, project_relational_query_error}
use dataporch.Postgres.Errors.Laws.{answer, project_relational_query_error-classify}
use dataporch.Postgres.Rows.{Limits, Rows, read_result}
use dataporch.Postgres.Query.{
  Log, read_only, exec, acquired, began, released, ran, rolled_back, deallocated, discarded, World,
  missing, unsuitable, ready, known_errors, reports, has_ended, request_error, execution_error,
  cleanup, destroy_connection, clean, run_connection, run_pool, run_opened, run_statement, query,
  check_query,
}

-- A result comes from a run in which nothing failed: the statement returned rows that were read within
-- the limits, and the connection was reset and given back.
abbrev pub IsEarned :
    Marshal
    → Limits
    → World
    → RelationalQueryExecutionRequest
    → RelationalQueryResult
    → Log
    → Type 0
IsEarned m l w request q log =
    ((rows : Rows) × (w.rows ≡ ok (some rows))
      × (read_result m l w.type_name w.reading request.source.kind request.source.id rows ≡ ok q))
    × (log
        ≡ released
          ∷ discarded true
          ∷ deallocated true
          ∷ rolled_back true
          ∷ ran exec request.query
          ∷ began read_only true
          ∷ acquired
          ∷ [])

clean-ok :
    (driver : Driver) (w : World) (r : Result RelationalQueryResult) (log : Log)
    (q : RelationalQueryResult)
    → (clean driver w r log).0 ≡ ok q
    → (r ≡ ok q)
      × ((cleanup driver w log).0 ≡ none)
      × ((clean driver w r log).1 ≡ (cleanup driver w log).1)
unfolding clean
clean-ok driver w r log q h = ground (arith, h)

destroy_connection-fails :
    (driver : Driver) (w : World) (e : Fault) (log : Log)
    → (destroy_connection driver w e log).0 ≡ none
    → ⊥
unfolding destroy_connection
destroy_connection-fails driver w e log h = ground (arith, h)

cleanup-none :
    (driver : Driver) (w : World) (log : Log)
    → (cleanup driver w log).0 ≡ none
    → (cleanup driver w log).1
      ≡ released ∷ discarded true ∷ deallocated true ∷ rolled_back true ∷ log
unfolding cleanup
cleanup-none driver w log h = elim (Result-cases w.rollback) [
  | inr (e, q) ↦
      absurd (destroy_connection-fails driver w e (rolled_back false ∷ log) (ground (arith, h, q)))
  | inl (u, q) ↦ elim (Result-cases w.deallocate_all) [
    | inr (e, k) ↦ absurd (
        destroy_connection-fails driver w e (deallocated false ∷ rolled_back true ∷ log)
          (ground (arith, h, q, k)))
    | inl (v, k) ↦ elim (Result-cases w.discard_all) [
      | inr (e, l) ↦ absurd (
          destroy_connection-fails driver w e
            (discarded false ∷ deallocated true ∷ rolled_back true ∷ log)
            (ground (arith, h, q, k, l)))
      | inl (x, l) ↦ ground (arith, q, k, l)
    ]
  ]
]

module _ (m : Marshal) (l : Limits) (driver : Driver) where
  run_statement-ok :
      (requested : Context) (w : World) (request : RelationalQueryExecutionRequest)
      (q : RelationalQueryResult)
      → run_statement m l driver requested w request ≡ ok q
      → (rows : Rows) × (w.rows ≡ ok (some rows))
        × (read_result m l w.type_name w.reading request.source.kind request.source.id rows ≡ ok q)
  unfolding run_statement
  run_statement-ok requested w request q h = elim (Result-cases w.rows) [
    | inr (e, k) ↦ absurd (ground (arith, k, h))
    | inl (none, k) ↦ absurd (ground (arith, k, h))
    | inl (some rows, k) ↦ (
      rows,
      k,
      or_else-eq-ok
          (read_result m l w.type_name w.reading request.source.kind request.source.id rows)
          (execution_error driver requested w) q (ground (arith, k, h)),
    )
  ]

  run_connection-IsEarned :
      (requested : Context) (w : World) (request : RelationalQueryExecutionRequest)
      (q : RelationalQueryResult)
      → (run_connection m l driver requested w request (acquired ∷ [])).0 ≡ ok q
      → IsEarned m l w request q (run_connection m l driver requested w request (acquired ∷ [])).1
  unfolding run_connection
  run_connection-IsEarned requested w request q h =
      let log : Log = ran exec request.query ∷ began read_only true ∷ acquired ∷ [] in
      let r = run_statement m l driver requested w request in
      elim (Result-cases w.transaction) [
        | inr (e, k) ↦ absurd (ground (arith, k, h))
        | inl (false, k) ↦ absurd (ground (arith, k, h))
        | inl (true, k) ↦
            let c = clean-ok driver w r log q (ground (arith, k, h)) in
            (
              run_statement-ok requested w request q c.0,
              ground (arith, k, c, cleanup-none driver w log),
            )
      ]

  -- A query answers with a result only if every step succeeded: the connection was taken, a transaction
  -- was begun with the access mode ReadOnly, the statement ran in it in the mode Exec, its rows were read
  -- into this result, and the transaction was rolled back and the connection reset and given back.
  pub query-IsEarned :
      (requested : Context) (w : World) (request : RelationalQueryExecutionRequest)
      (q : RelationalQueryResult)
      → (query m l driver requested w request).0 ≡ ok q
      → IsEarned m l w request q (query m l driver requested w request).1
  unfolding query run_opened run_pool
  query-IsEarned requested w request q h = elim (Result-cases (check_query requested request)) [
    | inr (e, k) ↦ absurd (ground (arith, k, h))
    | inl (u, k) ↦ elim (Result-cases w.opened) [
      | inr (e, o) ↦ absurd (ground (arith, k, o, h))
      | inl (missing, o) ↦ absurd (ground (arith, k, o, h))
      | inl (unsuitable, o) ↦ absurd (ground (arith, k, o, h))
      | inl (ready, o) ↦ elim (Result-cases w.connection) [
        | inr (e, c) ↦ absurd (ground (arith, k, o, c, h))
        | inl (false, c) ↦ absurd (ground (arith, k, o, c, h))
        | inl (true, c) ↦
            rw (k, query)
              (rw (o, query)
                (rw (c, run_pool)
                  (run_connection-IsEarned (later requested) w request q
                    (ground (arith, k, o, c, h)))))
      ]
    ]
  ]

  execution_error-foreign :
      (requested : Context) (w : World) (e : Fault)
      → IsForeign e
      → request_error requested ≡ none
      → has_ended w.query_ended ≡ false
      → execution_error driver requested w e ≡ project_relational_query_error driver e
  unfolding execution_error reports
  execution_error-foreign requested w e h live running =
      ground (arith, live, running, IsForeign-IsRaw e h, IsForeign-any e known_errors h)

  -- When PostgreSQL refuses the statement with a foreign error while the request and the query's time
  -- are still running, and the connection is reset, the query fails with an error that the client is
  -- told as `answer` says: the report of PostgreSQL under the category of its SQLSTATE.
  pub query-refused :
      (ctx requested : Context) (w : World) (request : RelationalQueryExecutionRequest) (e : Fault)
      → check_query requested request ≡ ok tt
      → w.opened ≡ ok ready
      → w.connection ≡ ok true
      → w.transaction ≡ ok true
      → w.rows ≡ err e
      → (w.rollback ≡ ok tt) × (w.deallocate_all ≡ ok tt) × (w.discard_all ≡ ok tt)
      → IsForeign (e ++ w.broken_rows)
      → request_error (later requested) ≡ none
      → has_ended w.query_ended ≡ false
      → context_category ctx ≡ none
      → (x : Fault) × ((query m l driver requested w request).0 ≡ err x)
        × (classify_query ctx (some x) ≡ answer driver (e ++ w.broken_rows))
  unfolding query run_opened run_pool run_connection run_statement clean cleanup
  query-refused ctx requested w request e checked opened taken begun refused reset outside asked
        running live =
      let all = e ++ w.broken_rows in
      (
        project_relational_query_error driver all,
        ground (
          arith,
          checked,
          opened,
          taken,
          begun,
          refused,
          reset,
          execution_error-foreign (later requested) w all outside asked running,
        ),
        project_relational_query_error-classify driver ctx all outside live,
      )
