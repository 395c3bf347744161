-- ===== src/Postgres/Opener/Answers.antt =====
-- What the callers that wait for an attempt of internal/connection/postgres/opener.go are told.
use dataporch.Prelude.{
  ℕ, ◌≡◌, refl, ◌⊎◌, inl, inr, List, [], ◌∷◌, none, some, arith, Option-cases, length,
}
use dataporch.Text.{Text, same_self}
use dataporch.Fault.{◌>>◌, Result, ok, err, Fault, Result-cases}
use dataporch.Assoc.{remove, lookup, lookup-insert}
use dataporch.Postgres.Opener.{
  CacheEntry, Opener, OpenAttempt, Surroundings, current_entry, publish_attempt, reject_attempt,
  finish_attempt, run_attempt, create_pool, try_pool, attempt_at, update_attempt, conclude,
}

length-update_attempt :
    (n : ℕ) (f : OpenAttempt → OpenAttempt) (l : List OpenAttempt)
    → length (update_attempt n f l) ≡ length l
unfolding update_attempt
length-update_attempt n f [] = refl
length-update_attempt n f (x ∷ l) = ground (arith, length-update_attempt n f l)

attempt_at-update_attempt :
    (n : ℕ) (f : OpenAttempt → OpenAttempt) (a : OpenAttempt) (l : List OpenAttempt)
    → attempt_at n l ≡ some a
    → attempt_at n (update_attempt n f l) ≡ some (f a)
unfolding attempt_at update_attempt
attempt_at-update_attempt n f a [] h = ground arith
attempt_at-update_attempt n f a (x ∷ l) h =
    ground (arith, attempt_at-update_attempt n f a l, length-update_attempt n f l)

-- An attempt is answered: with a pool where the cache still waited for it in the same generation,
-- and that pool is now the cached one; with an error where it did not, and then the cache is as it was;
-- or with the error that the opening failed with, and then nothing is cached under the identifier.
abbrev pub IsTold : ℕ → OpenAttempt → Result ℕ → Opener → Opener → Type 0
IsTold n a r o o' =
    ((p : ℕ) × (e : CacheEntry) × (r ≡ ok p)
      × (attempt_at n o'.attempts ≡ some (conclude (ok p) a))
      × (current_entry a.id a.generation n o ≡ some e)
      × (lookup a.id o'.entries ≡ some (record e { client = some p; attempt = none })))
    ⊎ ((x : Fault) × (current_entry a.id a.generation n o ≡ none)
        × (attempt_at n o'.attempts ≡ some (conclude (err x) a))
        × (o'.entries ≡ o.entries))
    ⊎ ((x : Fault) × (e : CacheEntry) × (r ≡ err x)
        × (current_entry a.id a.generation n o ≡ some e)
        × (attempt_at n o'.attempts ≡ some (conclude (err x) a))
        × (o'.entries ≡ remove a.id o.entries))

finish_attempt-IsTold :
    (n : ℕ) (a : OpenAttempt) (r : Result ℕ) (o : Opener)
    → attempt_at n o.attempts ≡ some a
    → IsTold n a r o (finish_attempt a.id a.generation n r o)
unfolding finish_attempt publish_attempt reject_attempt
finish_attempt-IsTold n a (ok p) o h =
    let told = λ (x : Result ℕ). attempt_at-update_attempt n (conclude x) a o.attempts h in
    elim (Option-cases (current_entry a.id a.generation n o)) [
      | inr (e, q) ↦
          let kept : CacheEntry = record e { client = some p; attempt = none } in
          rw (q, finish_attempt)
            (inl (
              p,
              e,
              refl,
              told (ok p),
              refl,
              ground (arith, lookup-insert a.id a.id kept o.entries, same_self a.id),
            ))
      | inl q ↦ rw (q, finish_attempt) (inr (inl (_, refl, told (err _), refl)))
    ]
finish_attempt-IsTold n a (err x) o h =
    let told = λ (y : Result ℕ). attempt_at-update_attempt n (conclude y) a o.attempts h in
    elim (Option-cases (current_entry a.id a.generation n o)) [
      | inr (e, q) ↦ rw (q, finish_attempt) (inr (inr (x, e, refl, refl, told (err x), refl)))
      | inl q ↦ rw (q, finish_attempt) (inr (inl (_, refl, told (err _), refl)))
    ]

-- What the opening itself comes to: the pool that is made next, or the error of the step that failed.
abbrev pub opened_pool : Text → Surroundings → ℕ → Result ℕ
opened_pool id w p = do create_pool id w; try_pool w; ok p

-- However its surroundings answer, an attempt that runs is answered. With the pool, exactly when the
-- opening succeeded and the cache still waited for the attempt in the same generation, and the pool is
-- then cached. Where the cache no longer waited for it, with an error, and the cache stays as it was.
-- Otherwise with the error of the step that failed, and the entry is removed.
pub run_attempt-IsTold :
    (n : ℕ) (a : OpenAttempt) (w : Surroundings) (o : Opener)
    → attempt_at n o.attempts ≡ some a
    → IsTold n a (opened_pool a.id w o.made) o (run_attempt n a w o)
unfolding run_attempt current_entry
run_attempt-IsTold n a w o h = elim (Result-cases (create_pool a.id w)) [
  | inr (e, q) ↦ rw (q, run_attempt) (finish_attempt-IsTold n a (err e) o h)
  | inl (u, q) ↦ elim (Result-cases (try_pool w)) [
    | inl (v, k) ↦
        rw (q, run_attempt) (rw (k, run_attempt) (finish_attempt-IsTold n a (ok o.made) _ h))
    | inr (e, k) ↦ rw (q, run_attempt) (rw (k, run_attempt) (finish_attempt-IsTold n a (err e) _ h))
  ]
]
