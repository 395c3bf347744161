-- ===== src/Postgres/Opener/Steps.antt =====
-- What callers and goroutines do to an opener of internal/connection/postgres/opener.go, in any order.
use dataporch.Prelude.{◌≡◌, ℕ, none, some}
use dataporch.Text.{Text}
use dataporch.Postgres.Opener.{
  Opener, OpenAttempt, Surroundings, acquire, attempt_at, run_attempt, invalidate, close,
}

pub data Step : Opener → Opener → Type 0 where
  open_step : (id : Text) (o : Opener) → Step o (acquire id o).1
  run_step :
      (n : ℕ) (a : OpenAttempt) (w : Surroundings) (o : Opener)
      → attempt_at n o.attempts ≡ some a
      → a.outcome ≡ none
      → Step o (run_attempt n a w o)
  invalidate_step : (id : Text) (o : Opener) → Step o (invalidate id o)
  close_step : (o : Opener) → Step o (close o)

pub data Reach (s : Opener) : Opener → Type 0 where
  here : Reach s s
  next : {o o' : Opener} → Reach s o → Step o o' → Reach s o'

pub Reach-join : {s o o' : Opener} → Reach s o → Reach o o' → Reach s o'
Reach-join r here = r
Reach-join r (next t st) = next (Reach-join r t) st
