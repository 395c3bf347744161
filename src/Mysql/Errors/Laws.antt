-- ===== src/Mysql/Errors/Laws.antt =====
-- What a client can learn from a query that failed at MySQL.
use dataporch.Prelude.{
  ◌≡◌, refl, ◌⊎◌, inl, inr, if◌then◌else◌, ◌++◌, ◌∷◌, Bool, true, false, ◌||◌, Option, none, some,
  arith, Option-cases, Bool-cases, ◌∙◌, subst,
}
use dataporch.Fault.{Fault, Sentinel, sentinel, is, wraps, Context, QueryContext, carries}
use dataporch.Fault.Database.{
  DatabaseError, Category, internal, database_unavailable, database_conflict,
}
use dataporch.Diagnostics.{IsShown, mysql_diagnostic-IsShown}
use dataporch.Execution.Errors.{Failure}
use dataporch.Execution.QueryErrors.{
  as_failure, query_category_of, query_failure, as_database_error, classify_query, context_category,
  database_failure,
}
use dataporch.Execution.QueryErrors.Laws.{classify_query_reports}
use dataporch.Execution.QueryErrors.Foreign.{
  IsRaw, wrapped-IsRaw, classify_query-joined, classify_query-verdict, IsForeign-IsRaw,
}
use dataporch.Fault.Foreign.{IsForeign, IsForeign-is, IsForeign-any}
use dataporch.Text.{Text}
use dataporch.Mysql.Errors.{
  is_unreachable, Driver, MysqlError, project_mysql_error, mysql_error_category, mysql_sql_state,
  state_category, mysql_failure, project_without_context, known_errors, is_mysql_projected_error,
  is_mysql_known_error, is_mysql_unavailable_error, request_verdict, query_verdict, cause_verdict,
  ended_verdict, project_mysql_query_error,
}

abbrev IsRetried : Category × Bool → Type 0
IsRetried p = p.1 ≡ true → (p.0 ≡ database_conflict) ⊎ (p.0 ≡ database_unavailable)

state_category-IsRetried : (state : Text) → IsRetried (state_category state)
unfolding state_category
state_category-IsRetried state = ground arith

-- A verdict offers to try again for a conflict and for an unavailable database only.
mysql_error_category-IsRetried :
    (driver : Driver) (m : MysqlError)
    → IsRetried (mysql_error_category driver m.number (mysql_sql_state m.sql_state))
unfolding mysql_error_category
mysql_error_category-IsRetried driver m =
    ground (arith, state_category-IsRetried (driver.to_upper (mysql_sql_state m.sql_state)))

-- The projected error carries no report, or the verdict on an error of the driver.
abbrev Verdict : Driver → Fault → Fault → Type 0
Verdict driver e x =
    IsRaw x
    ⊎ ((m : MysqlError) × (driver.as_mysql e ≡ some m)
        × (as_failure x ≡ some (mysql_failure driver m))
        × (as_database_error x ≡ some (project_mysql_error m)))

project_without_context-Verdict :
    (driver : Driver) (e : Fault) → IsRaw e → Verdict driver e (project_without_context driver e)
unfolding project_without_context mysql_failure as_failure as_database_error
project_without_context-Verdict driver e h =
    elim (Bool-cases (is_mysql_projected_error e || is_mysql_known_error e)) [
      | inl k ↦ rw (k, project_without_context) (inl h)
      | inr k ↦ elim (Option-cases (driver.as_mysql e)) [
        | inr (m, q) ↦
            rw (k, project_without_context)
              (rw (q, project_without_context) (inr (m, refl, refl, refl)))
        | inl q ↦ inl (ground (arith, k, q, h))
      ]
    ]

project-Verdict :
    (driver : Driver) (requested : Context) (query : Option QueryContext) (e : Fault)
    → IsRaw e
    → Verdict driver e (project_mysql_query_error driver requested query e)
unfolding project_mysql_query_error
project-Verdict driver requested query e h = elim (Option-cases (request_verdict requested)) [
  | inr (s, q) ↦ rw (q, project_mysql_query_error) (inl (wrapped-IsRaw s e h))
  | inl q ↦ elim (Option-cases (query_verdict query)) [
    | inr (s, k) ↦
        rw (q, project_mysql_query_error)
          (rw (k, project_mysql_query_error) (inl (wrapped-IsRaw s e h)))
    | inl k ↦
        rw (q, project_mysql_query_error)
          (rw (k, project_mysql_query_error) (project_without_context-Verdict driver e h))
  ]
]

project_mysql_error-IsShown : (m : MysqlError) → IsShown (project_mysql_error m).message
unfolding project_mysql_error
project_mysql_error-IsShown m = mysql_diagnostic-IsShown m.message

-- Whatever the driver's error says and however the contexts stand, when the client is shown a report
-- of MySQL, its message holds no slash, none of its words starts with "file:", and it has at most 512
-- bytes. The error brings no verdict of its own.
pub project_mysql_query_error-IsShown :
    (driver : Driver) (ctx requested : Context) (query : Option QueryContext) (e : Fault)
    (d : DatabaseError)
    → IsRaw e
    → (classify_query ctx
        (some (project_mysql_query_error driver requested query e))).database_error
      ≡ some d
    → IsShown d.message
unfolding mysql_failure
project_mysql_query_error-IsShown driver ctx requested query e d h k =
    let r = classify_query_reports ctx (project_mysql_query_error driver requested query e) d k in
    elim (project-Verdict driver requested query e h) [
      | inl raw ↦ absurd (ground (arith, raw, r))
      | inr (m, q, f, g) ↦
          let same_report : project_mysql_error m ≡ d = ground (arith, r, f, g) in
          subst (λ x. IsShown x.message) same_report (project_mysql_error-IsShown m)
    ]

-- What a client is to be told of a foreign error while its request is live: what ended the query's
-- own context, else the verdict on the report of MySQL, else whether the server can be reached.
abbrev pub answer : Driver → Option QueryContext → Fault → Failure
answer driver query e = elim (query_verdict query) [
  | some s ↦ query_failure (query_category_of (wraps s))
  | none ↦ elim (driver.as_mysql e) [
    | some m ↦
        let c = mysql_error_category driver m.number (mysql_sql_state m.sql_state) in
        database_failure c.0 c.1 (some (project_mysql_error m))
    | none ↦ query_failure (if is_unreachable driver e then database_unavailable else internal)
  ]
]

query_verdict_cases :
    (query : Option QueryContext) (s : Sentinel)
    → query_verdict query ≡ some s
    → (s ≡ Sentinel.query_timeout) ⊎ (s ≡ Sentinel.query_cancelled)
unfolding query_verdict cause_verdict ended_verdict
query_verdict_cases none s h = ground arith
query_verdict_cases (some q) s h = ground arith

not_taken :
    (driver : Driver) (e : Fault)
    → IsForeign e
    → (is_mysql_projected_error e || is_mysql_known_error e) ≡ false
unfolding is_mysql_projected_error is_mysql_known_error
not_taken driver e h = ground (arith, IsForeign-IsRaw e h, IsForeign-any e known_errors h)

unreported :
    (driver : Driver) (e : Fault)
    → IsForeign e
    → driver.as_mysql e ≡ none
    → project_without_context driver e
      ≡ sentinel
          (if is_unreachable driver e then Sentinel.database_unavailable else Sentinel.internal)
        ∷ e
unfolding project_without_context is_mysql_unavailable_error
unreported driver e h q =
    let never : (s : Sentinel) → is e s ≡ false = λ s. IsForeign-is e s h in
    ground (
      arith,
      q,
      not_taken driver e h,
      never Sentinel.open_timeout,
      never Sentinel.runtime_closed,
      never Sentinel.open_invalidated,
      never Sentinel.canceled,
      never Sentinel.deadline_exceeded,
    )

reported :
    (driver : Driver) (e : Fault) (m : MysqlError)
    → IsForeign e
    → driver.as_mysql e ≡ some m
    → project_without_context driver e ≡ carries (mysql_failure driver m) ++ e
unfolding project_without_context
reported driver e m h q = ground (arith, q, not_taken driver e h)

-- While a request is live, a foreign error that a query meets at MySQL is answered as `answer` says:
-- a deadline or a cancellation of the query's own context comes first, then the verdict on MySQL's
-- report, then whether the server can be reached.
pub project_mysql_query_error-classify :
    (driver : Driver) (ctx requested : Context) (query : Option QueryContext) (e : Fault)
    → IsForeign e
    → context_category ctx ≡ none
    → request_verdict requested ≡ none
    → (classify_query ctx (some (project_mysql_query_error driver requested query e))
        ≡ answer driver query e)
unfolding project_mysql_query_error is mysql_failure query_category_of
project_mysql_query_error-classify driver ctx requested query e h live asked =
    elim (Option-cases (query_verdict query)) [
      | inr (s, q) ↦
          let l : project_mysql_query_error driver requested query e ≡ sentinel s ∷ e =
            ground (arith, asked, q) in
          rw l (
            classify_query-joined ctx s e live (ground (arith, query_verdict_cases query s q)) h
            ∙ ground (arith, q))
      | inl q ↦
          let l : project_mysql_query_error driver requested query e
              ≡ project_without_context driver e =
            ground (arith, asked, q) in
          elim (Option-cases (driver.as_mysql e)) [
            | inr (m, k) ↦ rw (l ∙ reported driver e m h k) (
                classify_query-verdict ctx (mysql_failure driver m) e live h ∙ ground (arith, q, k))
            | inl k ↦ elim (Bool-cases (is_unreachable driver e)) [
              | inl u ↦ rw (l ∙ unreported driver e h k) (
                  rw u (
                    classify_query-joined ctx Sentinel.database_unavailable e live refl h
                    ∙ ground (arith, q, k, u)))
              | inr u ↦ rw (l ∙ unreported driver e h k) (
                  rw u (
                    classify_query-joined ctx Sentinel.internal e live refl h
                    ∙ ground (arith, q, k, u)))
            ]
          ]
    ]
