-- ===== src/Execution/Errors/Laws.antt =====
-- What a client can learn from a failed discovery.
use dataporch.Prelude.{◌≡◌, ◌≢◌, refl, ◌⊎◌, inl, inr, true, [], none, some, arith}
use dataporch.Fault.{Fault}
use dataporch.Fault.Database.{Category, database_unavailable, query_timeout}
use dataporch.Execution.Errors.{message_of, is_retryable, failure_for, category_of, classify}

abbrev Speaks : Category → Type 0
Speaks c = message_of c ≢ []

abbrev MayRetry : Category → Type 0
MayRetry c =
    is_retryable c ≡ true → (some c ≡ some database_unavailable) ⊎ (some c ≡ some query_timeout)

category_of-Speaks : (e : Fault) → Speaks (category_of e)
unfolding category_of message_of
category_of-Speaks e = ground arith

retryable_lem : (c : Category) → MayRetry c
unfolding is_retryable
retryable_lem database_unavailable h = inl refl
retryable_lem query_timeout h = inr refl
retryable_lem _ h = ground arith

-- The category, the message and the retry flag of a classified error are one row of a fixed table,
-- which the error's category alone selects; the message is not empty, and there is no report of a
-- database.
pub classify_is_fixed :
    (e : Fault)
    → (classify (some e) ≡ failure_for (category_of e))
      × (message_of (category_of e) ≢ [])
      × ((classify (some e)).database_error ≡ none)
unfolding classify failure_for
classify_is_fixed e = (refl, category_of-Speaks e, refl)

-- If a classified error may be retried, the database is unavailable or the query timed out.
pub classify_retries :
    (e : Fault)
    → (classify (some e)).retryable ≡ true
    → ((classify (some e)).category ≡ some database_unavailable)
      ⊎ ((classify (some e)).category ≡ some query_timeout)
unfolding classify failure_for
classify_retries e = retryable_lem (category_of e)
