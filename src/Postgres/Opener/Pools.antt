-- ===== src/Postgres/Opener/Pools.antt =====
-- Who owns the pools that an opener of internal/connection/postgres/opener.go makes: the cache, or one
-- closing goroutine.
use dataporch.Prelude.{
  ℕ, ◌+◌, ◌≡◌, refl, ◌⊎◌, inl, inr, false, [], Option, none, some, if◌then◌else◌, ltb, arith,
  Option-cases,
}
use dataporch.Text.{Text}
use dataporch.Fault.{Result, ok, err, Result-cases}
use dataporch.Assoc.{lookup, Each, Each-insert, Each-remove, Each-lookup}
use dataporch.Postgres.Opener.{
  CacheEntry, Opener, OpenAttempt, Surroundings, new_opener, current_entry, publish_attempt,
  reject_attempt, finish_attempt, run_attempt, create_pool, try_pool,
}
use dataporch.Postgres.Opener.Counts.{is_it, closings, cachings, cachings-insert, cachings-remove}
use dataporch.Postgres.Opener.Steps.{
  Step, open_step, run_step, invalidate_step, close_step, Reach, here, next,
}
use dataporch.Postgres.Opener.Owned.{
  IsExclusive, IsSound, new_opener-IsSound, acquire-IsSound, close-IsSound, invalidate-IsSound,
}

current_entry_lem :
    (id : Text) (g n : ℕ) (o : Opener) (e : CacheEntry)
    → current_entry id g n o ≡ some e
    → (lookup id o.entries ≡ some e) × (e.attempt ≡ some n) × (o.is_closed ≡ false)
unfolding current_entry
current_entry_lem id g n o e h = elim (Option-cases (lookup id o.entries)) [
  | inl q ↦ ground (arith, q)
  | inr (x, q) ↦ ground (arith, q)
]

-- A pool that an attempt has made and nobody owns yet, if its outcome is one.
abbrev in_hand : Result ℕ → Option ℕ
in_hand (ok p) = some p
in_hand (err e) = none

-- As `IsSound`, for the moment at which an attempt finishes with a pool of its own.
record IsHolding (r : Result ℕ) (o : Opener) : Type 0 where
  owned :
      (p : ℕ)
      → cachings p o.entries + closings p o.closing + is_it p (in_hand r)
        ≡ (if ltb p o.made then 1 else 0)
  exclusive : Each IsExclusive o.entries
  emptied : (o.is_closed ≡ false) ⊎ (o.entries ≡ [])

publish_attempt-IsSound :
    (id : Text) (e : CacheEntry) (n : ℕ) (r : Result ℕ) (o : Opener)
    → lookup id o.entries ≡ some e
    → e.attempt ≡ some n
    → o.is_closed ≡ false
    → IsHolding r o
    → IsSound (publish_attempt id e n r o)
unfolding publish_attempt
publish_attempt-IsSound id e n (ok p) o q a c v =
    let free = Each-lookup IsExclusive id o.entries v.exclusive q in
    let kept : CacheEntry = record e { client = some p; attempt = none } in
    record {
      owned = λ x. ground (arith, q, a, free, v.owned x, cachings-insert x id kept o.entries);
      exclusive = Each-insert IsExclusive id kept o.entries (inr refl) v.exclusive;
      emptied = inl c;
    }
publish_attempt-IsSound id e n (err x) o q a c v =
    let free = Each-lookup IsExclusive id o.entries v.exclusive q in
    record {
      owned = λ y. ground (arith, q, a, free, v.owned y, cachings-remove y id o.entries);
      exclusive = Each-remove IsExclusive id o.entries v.exclusive;
      emptied = inl c;
    }

reject_attempt-IsSound :
    (n : ℕ) (r : Result ℕ) (o : Opener) → IsHolding r o → IsSound (reject_attempt n r o)
unfolding reject_attempt closings
reject_attempt-IsSound n (ok p) o v = record {
  owned = λ x. ground (arith, v.owned x);
  exclusive = v.exclusive;
  emptied = v.emptied;
}
reject_attempt-IsSound n (err e) o v = record {
  owned = λ x. ground (arith, v.owned x);
  exclusive = v.exclusive;
  emptied = v.emptied;
}

finish_attempt-IsSound :
    (id : Text) (g n : ℕ) (r : Result ℕ) (o : Opener)
    → IsHolding r o
    → IsSound (finish_attempt id g n r o)
unfolding finish_attempt
finish_attempt-IsSound id g n r o v = elim (Option-cases (current_entry id g n o)) [
  | inl q ↦ rw (q, finish_attempt) (reject_attempt-IsSound n r o v)
  | inr (e, q) ↦
      let l = current_entry_lem id g n o e q in
      rw (q, finish_attempt) (publish_attempt-IsSound id e n r o l.0 l.1 l.2 v)
]

run_attempt-IsSound :
    (n : ℕ) (a : OpenAttempt) (w : Surroundings) (o : Opener)
    → IsSound o
    → IsSound (run_attempt n a w o)
unfolding run_attempt closings
run_attempt-IsSound n a w o v = elim (Result-cases (create_pool a.id w)) [
  | inr (e, q) ↦
      rw (q, run_attempt)
        (finish_attempt-IsSound a.id a.generation n (err e) o (record {
          owned = λ p. ground (arith, v.owned p);
          exclusive = v.exclusive;
          emptied = v.emptied;
        }))
  | inl (u, q) ↦ elim (Result-cases (try_pool w)) [
    | inl (x, k) ↦
        rw (q, run_attempt)
          (rw (k, run_attempt)
            (finish_attempt-IsSound a.id a.generation n (ok o.made) _ (record {
              owned = λ p. ground (arith, v.owned p);
              exclusive = v.exclusive;
              emptied = v.emptied;
            })))
    | inr (e, k) ↦
        rw (q, run_attempt)
          (rw (k, run_attempt)
            (finish_attempt-IsSound a.id a.generation n (err e) _ (record {
              owned = λ p. ground (arith, v.owned p);
              exclusive = v.exclusive;
              emptied = v.emptied;
            })))
  ]
]

Step-IsSound : {o o' : Opener} → Step o o' → IsSound o → IsSound o'
Step-IsSound (open_step id o) v = acquire-IsSound id o v
Step-IsSound (run_step n a w o h k) v = run_attempt-IsSound n a w o v
Step-IsSound (invalidate_step id o) v = invalidate-IsSound id o v
Step-IsSound (close_step o) v = close-IsSound o v

-- In every state that an opener can reach, each pool that it has made is either cached for one
-- database or handed to one closing goroutine, once; no entry holds a pool and waits for another;
-- and a closed opener caches nothing.
pub Reach-IsSound : {o : Opener} → Reach new_opener o → IsSound o
Reach-IsSound here = new_opener-IsSound
Reach-IsSound (next r st) = Step-IsSound st (Reach-IsSound r)
