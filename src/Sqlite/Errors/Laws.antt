-- ===== src/Sqlite/Errors/Laws.antt =====
-- What a client can learn from a query or a discovery that failed at SQLite.
use dataporch.Prelude.{
  ◌≡◌, ◌≢◌, refl, ◌⊎◌, inl, inr, false, not, ◌||◌, ◌&&◌, Option, none, some, arith, Option-cases,
  Bool-cases, if◌then◌else◌, subst,
}
use dataporch.Text.{bytes, has_prefix}
use dataporch.Fault.{Fault, Sentinel, is, Context, QueryContext, carries}
use dataporch.Fault.Database.{DatabaseError, DatabaseFailure, invalid_query, plain_error}
use dataporch.Diagnostics.{IsShown, names_no_file, sqlite_diagnostic-IsShown}
use dataporch.Execution.QueryErrors.{as_failure, as_database_error, classify_query}
use dataporch.Execution.QueryErrors.Laws.{classify_query_reports}
use dataporch.Execution.QueryErrors.Foreign.{IsRaw}
use dataporch.Sqlite.Codes.{ErrorCode}
use dataporch.Sqlite.Errors.{
  Library, ExtractedError, ErrorPhase, prepare_phase, step_phase, open_phase, close_phase,
  is_prepare, sqlite_report, sqlite_error_category, code_category, classify_sqlite_error,
  unknown_failure, extract_error, has_sqlite_error, is_projected_sqlite_error, is_known_query_error,
  request_error, cause_ending, err_ending, query_ending, project_context_error, project_live_error,
  project_sqlite_error, project_discovery_error, is_discovery_sentinel,
}

-- The verdicts that the projection makes.
data IsVerdict (library : Library) (e : Fault) (phase : ErrorPhase) : DatabaseFailure → Type 0 where
  unknown : extract_error library e ≡ none → IsVerdict library e phase unknown_failure
  known :
      (x : ExtractedError)
      → extract_error library e ≡ some x
      → IsVerdict library e phase (classify_sqlite_error library x phase)

-- The projected error carries no report, or one verdict alone.
abbrev Projected : Library → Fault → ErrorPhase → Fault → Type 0
Projected library e phase x =
    IsRaw x ⊎ ((f : DatabaseFailure) × IsVerdict library e phase f × (x ≡ carries f))

context_error-IsRaw :
    (requested : Context) (query : Option QueryContext) (e x : Fault)
    → IsRaw e
    → project_context_error requested query e ≡ some x
    → IsRaw x
unfolding project_context_error request_error query_ending cause_ending err_ending as_failure
    as_database_error
context_error-IsRaw requested query e x h k = ground (arith, k, h)

project_live_error-Projected :
    (library : Library) (e : Fault) (phase : ErrorPhase)
    → IsRaw e
    → Projected library e phase (project_live_error library e phase)
unfolding project_live_error as_failure as_database_error
project_live_error-Projected library e phase h =
    elim (Bool-cases (
      (is_projected_sqlite_error e || is_known_query_error e)
      && not (has_sqlite_error library e))) [
        | inl k ↦ rw (k, project_live_error) (inl h)
        | inr k ↦
            elim (Bool-cases (
              is e Sentinel.sqlite_file_unavailable
              || is e Sentinel.runtime_unavailable
              || is e Sentinel.runtime_closed)) [
                | inl u ↦ rw (k, project_live_error) (rw u (inl (refl, refl)))
                | inr u ↦ elim (Option-cases (extract_error library e)) [
                  | inl q ↦
                      rw (k, project_live_error)
                        (rw u (rw (q, project_live_error) (inr (unknown_failure, unknown q, refl))))
                  | inr (x, q) ↦
                      rw (k, project_live_error)
                        (rw u (
                          rw (q, project_live_error)
                            (inr (classify_sqlite_error library x phase, known x q, refl))))
                ]
              ]
      ]

project_sqlite_error-Projected :
    (library : Library) (requested : Context) (query : Option QueryContext) (e : Fault)
    (phase : ErrorPhase)
    → IsRaw e
    → Projected library e phase (project_sqlite_error library requested query e phase)
unfolding project_sqlite_error
project_sqlite_error-Projected library requested query e phase h =
    elim (Option-cases (project_context_error requested query e)) [
      | inr (x, q) ↦
          rw (q, project_sqlite_error) (inl (context_error-IsRaw requested query e x h q))
      | inl q ↦ rw (q, project_sqlite_error) (project_live_error-Projected library e phase h)
    ]

sqlite_report-IsShown :
    (library : Library) (x : ExtractedError) (phase : ErrorPhase)
    → IsShown (sqlite_report library x phase).message
unfolding sqlite_report names_no_file has_prefix
sqlite_report-IsShown library x open_phase = record {
  no_slash = ground arith;
  no_file = refl;
  short = omega arith;
}
sqlite_report-IsShown library x prepare_phase = sqlite_diagnostic-IsShown x.message
sqlite_report-IsShown library x step_phase = sqlite_diagnostic-IsShown x.message
sqlite_report-IsShown library x close_phase = sqlite_diagnostic-IsShown x.message

IsVerdict-IsShown :
    (library : Library) (e : Fault) (phase : ErrorPhase) (f : DatabaseFailure) (d : DatabaseError)
    → IsVerdict library e phase f
    → f.database_error ≡ some d
    → IsShown d.message
unfolding classify_sqlite_error names_no_file has_prefix
IsVerdict-IsShown library e phase f d (unknown q) h =
    let told : d
        ≡ plain_error (bytes "sqlite") (bytes "SQLITE_UNKNOWN")
            (bytes "SQLite database operation failed.") =
      cc in
    rw told (record { no_slash = ground arith; no_file = refl; short = omega arith })
IsVerdict-IsShown library e phase f d (known x q) h =
    let told : sqlite_report library x phase ≡ d = cc in
    subst (λ r. IsShown r.message) told (sqlite_report-IsShown library x phase)

carries_lem :
    (f : DatabaseFailure)
    → (as_failure (carries f) ≡ some f) × (as_database_error (carries f) ≡ f.database_error)
unfolding as_failure as_database_error
carries_lem f = (refl, ground arith)

-- Whatever SQLite says and however the contexts stand, when the client of a query is shown a report
-- of SQLite, its message holds no slash, none of its words starts with "file:", and it has at most 512
-- bytes. The error brings no verdict of its own.
pub project_sqlite_error-IsShown :
    (library : Library) (ctx requested : Context) (query : Option QueryContext) (e : Fault)
    (phase : ErrorPhase) (d : DatabaseError)
    → IsRaw e
    → (classify_query ctx
        (some (project_sqlite_error library requested query e phase))).database_error
      ≡ some d
    → IsShown d.message
project_sqlite_error-IsShown library ctx requested query e phase d h k =
    let r = classify_query_reports ctx (project_sqlite_error library requested query e phase) d k in
    elim (project_sqlite_error-Projected library requested query e phase h) [
      | inl raw ↦ absurd (ground (arith, raw, r))
      | inr (f, v, q) ↦
          IsVerdict-IsShown library e phase f d v (ground (arith, q, r, carries_lem f))
    ]

-- In no phase but that of preparing does a code mean an invalid query.
sqlite_error_category-ne :
    (code : ErrorCode) (phase : ErrorPhase)
    → is_prepare phase ≡ false
    → (sqlite_error_category code phase).0 ≢ invalid_query
unfolding sqlite_error_category code_category
sqlite_error_category-ne code phase h = ground (arith, h)

IsVerdict-ne :
    (library : Library) (e : Fault) (phase : ErrorPhase) (f : DatabaseFailure)
    → is_prepare phase ≡ false
    → IsVerdict library e phase f
    → f.category ≢ invalid_query
unfolding classify_sqlite_error
IsVerdict-ne library e phase f h (unknown q) k = ground arith
IsVerdict-ne library e phase f h (known x q) k = sqlite_error_category-ne x.code phase h k

-- The phase in which a discovery's error is projected.
abbrev discovery_phase : ErrorPhase → ErrorPhase
discovery_phase phase = if is_prepare phase then step_phase else phase

discovery_phase_lem : (phase : ErrorPhase) → is_prepare (discovery_phase phase) ≡ false
discovery_phase_lem open_phase = refl
discovery_phase_lem prepare_phase = refl
discovery_phase_lem step_phase = refl
discovery_phase_lem close_phase = refl

-- A discovery that SQLite refuses, also while its own statement is prepared, is never blamed on the
-- client as an invalid query. The error brings no verdict of its own.
pub project_discovery_error-ne :
    (library : Library) (requested : Context) (query : Option QueryContext) (e : Fault)
    (phase : ErrorPhase) (f : DatabaseFailure)
    → IsRaw e
    → as_failure (project_discovery_error library requested query e phase) ≡ some f
    → f.category ≢ invalid_query
unfolding project_discovery_error
project_discovery_error-ne library requested query e phase f h k =
    elim (Bool-cases (is_discovery_sentinel e && not (has_sqlite_error library e))) [
      | inl passed ↦ absurd (ground (arith, passed, h, k))
      | inr turned ↦
          elim (project_sqlite_error-Projected library requested query e (discovery_phase phase)
            h) [
              | inl raw ↦ absurd (ground (arith, turned, raw, k))
              | inr (g, v, q) ↦
                  let told : g ≡ f = ground (arith, turned, q, k, carries_lem g) in
                  subst (λ x. x.category ≢ invalid_query) told
                    (IsVerdict-ne library e (discovery_phase phase) g (discovery_phase_lem phase) v)
            ]
    ]
