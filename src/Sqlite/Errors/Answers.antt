-- ===== src/Sqlite/Errors/Answers.antt =====
-- Which failure an error of SQLite leads to, in the order of what decides it.
use dataporch.Prelude.{
  ◌≡◌, refl, ◌∙◌, ◌⊎◌, inl, inr, ◌++◌, ◌∷◌, [], false, not, ◌||◌, ◌&&◌, Option, none, some, arith,
  Option-cases,
}
use dataporch.Fault.{Fault, Sentinel, sentinel, is, wraps, Context, QueryContext, carries}
use dataporch.Fault.Foreign.{IsForeign, IsForeign-is, IsForeign-any}
use dataporch.Fault.Database.{database_error}
use dataporch.Execution.Errors.{Failure}
use dataporch.Execution.QueryErrors.{
  classify_query, context_category, database_failure, query_failure, query_category_of,
}
use dataporch.Execution.QueryErrors.Foreign.{
  IsForeign-IsRaw, classify_query-joined, classify_query-verdict,
}
use dataporch.Sqlite.Errors.{
  Library, ErrorPhase, sqlite_report, sqlite_error_category, classify_sqlite_error, unknown_failure,
  extract_error, has_sqlite_error, is_projected_sqlite_error, is_known_query_error, request_error,
  cause_ending, err_ending, query_ending, project_context_error, project_live_error,
  project_sqlite_error, known_query_errors,
}

-- What the client of a query is to be told of a foreign error while its request is live: what ended
-- the query's own context, else the verdict on SQLite's code.
abbrev pub answer : Library → Option QueryContext → Fault → ErrorPhase → Failure
answer library query e phase = elim (query_ending query) [
  | some s ↦ query_failure (query_category_of (wraps s))
  | none ↦ elim (extract_error library e) [
    | none ↦ database_failure database_error false unknown_failure.database_error
    | some x ↦
        let c = sqlite_error_category x.code phase in
        database_failure c.0 c.1 (some (sqlite_report library x phase))
  ]
]

query_ending_cases :
    (query : Option QueryContext) (s : Sentinel)
    → query_ending query ≡ some s
    → (s ≡ Sentinel.query_timeout) ⊎ (s ≡ Sentinel.query_cancelled)
unfolding query_ending cause_ending err_ending
query_ending_cases none s h = ground arith
query_ending_cases (some q) s h = ground arith

not_passed :
    (library : Library) (e : Fault)
    → IsForeign e
    → ((is_projected_sqlite_error e || is_known_query_error e) && not (has_sqlite_error library e))
      ≡ false
unfolding is_projected_sqlite_error is_known_query_error
not_passed library e h = ground (arith, IsForeign-IsRaw e h, IsForeign-any e known_query_errors h)

project_live_error-foreign :
    (library : Library) (e : Fault) (phase : ErrorPhase)
    → IsForeign e
    → project_live_error library e phase ≡ elim (extract_error library e) [
      | none ↦ carries unknown_failure
      | some x ↦ carries (classify_sqlite_error library x phase)
    ]
unfolding project_live_error
project_live_error-foreign library e phase h =
    let never : (s : Sentinel) → is e s ≡ false = λ s. IsForeign-is e s h in
    rw (not_passed library e h, project_live_error)
      (rw (never Sentinel.sqlite_file_unavailable)
        (rw (never Sentinel.runtime_unavailable) (rw (never Sentinel.runtime_closed) refl)))

-- While a request is live, a foreign error that a query meets at SQLite is answered as `answer` says:
-- a deadline or a cancellation of the query's own context comes first, then the verdict on SQLite's
-- code in the phase of the query, and any other error is a rejection without details.
pub project_sqlite_error-classify :
    (library : Library) (ctx requested : Context) (query : Option QueryContext) (e : Fault)
    (phase : ErrorPhase)
    → IsForeign e
    → context_category ctx ≡ none
    → request_error requested ≡ none
    → classify_query ctx (some (project_sqlite_error library requested query e phase))
      ≡ answer library query e phase
unfolding project_sqlite_error project_context_error is classify_sqlite_error
project_sqlite_error-classify library ctx requested query e phase h live asked =
    elim (Option-cases (query_ending query)) [
      | inr (s, q) ↦
          let l : project_sqlite_error library requested query e phase ≡ sentinel s ∷ e =
            ground (arith, asked, q) in
          rw l (
            classify_query-joined ctx s e live (ground (arith, query_ending_cases query s q)) h
            ∙ ground (arith, q))
      | inl q ↦
          let l : project_sqlite_error library requested query e phase
              ≡ project_live_error library e phase =
            ground (arith, asked, q) in
          let m = l ∙ project_live_error-foreign library e phase h in
          elim (Option-cases (extract_error library e)) [
            | inl k ↦
                let n : project_sqlite_error library requested query e phase
                    ≡ carries unknown_failure ++ [] =
                  ground (arith, m, k) in
                rw n (classify_query-verdict ctx unknown_failure [] live tt ∙ ground (arith, q, k))
            | inr (x, k) ↦
                let f = classify_sqlite_error library x phase in
                let n : project_sqlite_error library requested query e phase ≡ carries f ++ [] =
                  ground (arith, m, k) in
                rw n (classify_query-verdict ctx f [] live tt ∙ ground (arith, q, k))
          ]
    ]
