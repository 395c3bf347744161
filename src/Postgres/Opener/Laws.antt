-- ===== src/Postgres/Opener/Laws.antt =====
-- How an opener of internal/connection/postgres/opener.go closes, and what its attempts are told.
use dataporch.Prelude.{ℕ, ◌<◌, ◌≡◌, inl, inr, true, [], arith, Bool-cases}
use dataporch.Text.{Text}
use dataporch.Fault.{Result, ok, err, Result-cases}
use dataporch.Postgres.Opener.{
  Opener, OpenAttempt, refused, Surroundings, new_opener, acquire, publish_attempt, reject_attempt,
  finish_attempt, run_attempt, create_pool, try_pool, invalidate, close,
}
use dataporch.Postgres.Opener.Steps.{
  Step, open_step, run_step, invalidate_step, close_step, Reach, here, next, Reach-join,
}
use dataporch.Postgres.Opener.Counts.{cachings, closings}
use dataporch.Postgres.Opener.Owned.{detach_all_rest}
use dataporch.Postgres.Opener.Pools.{Reach-IsSound}

close_closed : (o : Opener) → (close o).is_closed ≡ true
unfolding close
close_closed o = elim (Bool-cases o.is_closed) [
  | inl c ↦ ground (arith, c)
  | inr c ↦
      ground (arith, c, detach_all_rest o.entries (record o { is_closed = true; entries = [] }))
]

finish_attempt_closed :
    (id : Text) (g n : ℕ) (r : Result ℕ) (o : Opener)
    → (finish_attempt id g n r o).is_closed ≡ o.is_closed
unfolding finish_attempt publish_attempt reject_attempt
finish_attempt_closed id g n r o = ground arith

run_attempt_closed :
    (n : ℕ) (a : OpenAttempt) (w : Surroundings) (o : Opener)
    → (run_attempt n a w o).is_closed ≡ o.is_closed
unfolding run_attempt
run_attempt_closed n a w o = elim (Result-cases (create_pool a.id w)) [
  | inr (e, q) ↦ rw (q, run_attempt) (finish_attempt_closed a.id a.generation n (err e) o)
  | inl (u, q) ↦ elim (Result-cases (try_pool w)) [
    | inl (v, k) ↦
        rw (q, run_attempt)
          (rw (k, run_attempt) (finish_attempt_closed a.id a.generation n (ok o.made) _))
    | inr (e, k) ↦
        rw (q, run_attempt)
          (rw (k, run_attempt) (finish_attempt_closed a.id a.generation n (err e) _))
  ]
]

Step-closed : {o o' : Opener} → Step o o' → o.is_closed ≡ true → o'.is_closed ≡ true
unfolding acquire invalidate
Step-closed (open_step id o) h = ground (arith, h)
Step-closed (run_step n a w o _ _) h = ground (arith, run_attempt_closed n a w o)
Step-closed (invalidate_step id o) h = ground (arith, h)
Step-closed (close_step o) h = close_closed o

Reach-closed : {o o' : Opener} → Reach o o' → o.is_closed ≡ true → o'.is_closed ≡ true
Reach-closed here h = h
Reach-closed (next r st) h = Step-closed st (Reach-closed r h)

-- Once `close` has been called, and whatever is called or finishes after it: every pool that was
-- ever made, also by an attempt that finishes late, is handed to exactly one closing goroutine, and
-- no call is given a pool or an attempt to wait for.
pub close-Reach :
    {o o' : Opener} (id : Text) (p : ℕ)
    → Reach new_opener o
    → Reach (close o) o'
    → p < o'.made
    → (closings p o'.closing ≡ 1) × ((acquire id o').0 ≡ refused)
unfolding cachings acquire
close-Reach {o} {o'} id p r s h =
    let v = Reach-IsSound (Reach-join (next r (close_step o)) s) in
    let c = Reach-closed s (close_closed o) in
    (ground (arith, v.owned p, v.emptied), ground (arith, c))
