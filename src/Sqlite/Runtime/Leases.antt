-- ===== src/Sqlite/Runtime/Leases.antt =====
-- The leases that the callers of internal/connection/sqlite/runtime.go hold.
use dataporch.Prelude.{
  ℕ, ◌+◌, ◌-◌, ◌≤◌, ◌≡◌, refl, ◌↔◌, inl, inr, true, ◌&&◌, List, [], ◌∷◌, ◌++◌, some, if◌then◌else◌,
  ◌==◌, arith, Option-cases, Bool-cases, length, length-append,
}
use dataporch.Text.{Text}
use dataporch.Assoc.{Assoc, lookup}
use dataporch.Sqlite.Runtime.Steps.{
  Lease, with_lease, Step, acquire_step, release_step, invalidate_step, close_step, Reach, here,
  next, Reach-join,
}
use dataporch.Sqlite.Runtime.{
  LogicalEntry, Runtime, new_runtime, entry_at, update_entry, grow, shrink, detach, attached,
  acquire, release, invalidate, detach_all, close,
}

-- How many of the leases are on an entry.
unfoldable pub leases_on : ℕ → List Lease → ℕ
leases_on n [] = 0
leases_on n ((id, m) ∷ rest) = (if m == n then 1 else 0) + leases_on n rest

leases_on-append :
    (n : ℕ) (xs ys : List Lease) → leases_on n (xs ++ ys) ≡ leases_on n xs + leases_on n ys
unfolding leases_on
leases_on-append n [] ys = omega arith
leases_on-append n ((id, m) ∷ xs) ys = ground (arith, leases_on-append n xs ys)

-- The count of an entry; an entry that was not made has none.
unfoldable pub active_at : ℕ → List LogicalEntry → ℕ
active_at n [] = 0
active_at n (e ∷ rest) = if n == length rest then e.active else active_at n rest

length-update_entry :
    (n : ℕ) (f : LogicalEntry → LogicalEntry) (l : List LogicalEntry)
    → length (update_entry n f l) ≡ length l
unfolding update_entry
length-update_entry n f [] = refl
length-update_entry n f (e ∷ l) = ground (arith, length-update_entry n f l)

active_at-detach :
    (m n : ℕ) (l : List LogicalEntry) → active_at m (update_entry n detach l) ≡ active_at m l
unfolding active_at update_entry
active_at-detach m n [] = refl
active_at-detach m n (e ∷ l) =
    ground (arith, active_at-detach m n l, length-update_entry n detach l)

active_at-detach_all :
    (m : ℕ) (entries : Assoc ℕ) (l : List LogicalEntry)
    → active_at m (detach_all entries l) ≡ active_at m l
unfolding detach_all
active_at-detach_all m [] l = refl
active_at-detach_all m ((id, n) ∷ entries) l =
    ground (arith, active_at-detach_all m entries (update_entry n detach l), active_at-detach m n l)

active_at-grow :
    (m n : ℕ) (l : List LogicalEntry) (e : LogicalEntry)
    → entry_at n l ≡ some e
    → active_at m (update_entry n grow l) ≡ active_at m l + (if n == m then 1 else 0)
unfolding active_at update_entry entry_at
active_at-grow m n [] e h = ground arith
active_at-grow m n (x ∷ l) e h =
    ground (arith, active_at-grow m n l e, length-update_entry n grow l)

active_at-shrink :
    (m n : ℕ) (l : List LogicalEntry)
    → active_at m (update_entry n shrink l) ≡ active_at m l - (if n == m then 1 else 0)
unfolding active_at update_entry
active_at-shrink m n [] = omega arith
active_at-shrink m n (x ∷ l) =
    ground (arith, active_at-shrink m n l, length-update_entry n shrink l)

active_at-length : (n : ℕ) (l : List LogicalEntry) → length l ≤ n → active_at n l ≡ 0
unfolding active_at
active_at-length n [] h = refl
active_at-length n (e ∷ l) h = ground (arith, active_at-length n l)

-- The counts are those of the leases that are held, and the drain is closed exactly when the runtime
-- is closed and no lease is held.
pub record IsCounted (r : Runtime) (held : List Lease) : Type 0 where
  pub counted : r.active ≡ length held
  pub each : (n : ℕ) → active_at n r.logical ≡ leases_on n held
  pub drained : r.drain_closed ≡ (r.is_closed && r.active == 0)

attached_lem :
    (id : Text) (r : Runtime) (n : ℕ)
    → attached id r ≡ some n
    → (e : LogicalEntry) × (entry_at n r.logical ≡ some e)
unfolding attached
attached_lem id r n h = elim (Option-cases (lookup id r.entries)) [
  | inl q ↦ absurd (ground (arith, q, h))
  | inr (m, q) ↦ elim (Option-cases (entry_at m r.logical)) [
    | inl k ↦ absurd (ground (arith, q, k, h))
    | inr (e, k) ↦ (e, ground (arith, q, k, h))
  ]
]

acquire-IsCounted :
    (id : Text) (r : Runtime) (held : List Lease)
    → IsCounted r held
    → IsCounted (acquire id r).1 (with_lease id (acquire id r).0 held)
unfolding acquire leases_on active_at attached
acquire-IsCounted id r held v = elim (Bool-cases r.is_closed) [
  | inl c ↦
      rw (c, acquire)
        (record { counted = v.counted; each = v.each; drained = ground (arith, c, v.drained) })
  | inr c ↦ elim (Option-cases (attached id r)) [
    | inr (n, q) ↦
        let e = attached_lem id r n q in
        rw (c, acquire)
          (rw (q, acquire)
            (record {
              counted = omega (arith, v.counted);
              each = λ m. ground (arith, v.each m, active_at-grow m n r.logical e.0 e.1);
              drained = ground (arith, c, v.drained);
            }))
    | inl q ↦
        rw (c, acquire)
          (rw (q, acquire)
            (record {
              counted = omega (arith, v.counted);
              each = λ m. ground (arith, v.each m, active_at-length m r.logical);
              drained = ground (arith, c, v.drained);
            }))
  ]
]

release-IsCounted :
    (id : Text) (n : ℕ) (r : Runtime) (before after : List Lease)
    → IsCounted r (before ++ ((id, n) ∷ after))
    → IsCounted (release id n r) (before ++ after)
unfolding release leases_on
release-IsCounted id n r before after v =
    let more = length-append before ((id, n) ∷ after) in
    let less = length-append before after in
    record {
      counted = ground (arith, v.counted, more, less);
      each = λ m. ground (
        arith,
        v.each m,
        leases_on-append m before ((id, n) ∷ after),
        leases_on-append m before after,
        active_at-shrink m n r.logical,
      );
      drained = ground (arith, v.counted, v.drained, more, less);
    }

invalidate-IsCounted :
    (id : Text) (r : Runtime) (held : List Lease)
    → IsCounted r held
    → IsCounted (invalidate id r) held
unfolding invalidate
invalidate-IsCounted id r held v = record {
  counted = ground (arith, v.counted);
  each = λ m. elim (Option-cases (lookup id r.entries)) [
    | inl q ↦ ground (arith, q, v.each m)
    | inr (n, q) ↦ ground (arith, q, v.each m, active_at-detach m n r.logical)
  ];
  drained = ground (arith, v.drained);
}

close-IsCounted : (r : Runtime) (held : List Lease) → IsCounted r held → IsCounted (close r) held
unfolding close
close-IsCounted r held v = record {
  counted = ground (arith, v.counted);
  each = λ m. ground (arith, v.each m, active_at-detach_all m r.entries r.logical);
  drained = ground (arith, v.drained);
}

Step-IsCounted :
    {r r' : Runtime} {held held' : List Lease}
    → Step r held r' held'
    → IsCounted r held
    → IsCounted r' held'
Step-IsCounted (acquire_step id r held) v = acquire-IsCounted id r held v
Step-IsCounted (release_step id n r before after) v = release-IsCounted id n r before after v
Step-IsCounted (invalidate_step id r held) v = invalidate-IsCounted id r held v
Step-IsCounted (close_step r held) v = close-IsCounted r held v

new_runtime-IsCounted : IsCounted new_runtime []
unfolding new_runtime active_at leases_on
new_runtime-IsCounted = record { counted = refl; each = λ n. refl; drained = refl }

-- In every state that a runtime can reach, its count is the number of the leases that are held, the
-- count of each entry, also of one that was detached and replaced, is the number of the leases on it,
-- and the drain is closed exactly when the runtime is closed and no lease is held.
pub Reach-IsCounted :
    {r : Runtime} {held : List Lease} → Reach new_runtime [] r held → IsCounted r held
Reach-IsCounted here = new_runtime-IsCounted
Reach-IsCounted (next reached st) = Step-IsCounted st (Reach-IsCounted reached)

close_closed : (r : Runtime) → (close r).is_closed ≡ true
unfolding close
close_closed r = ground arith

Step-closed :
    {r r' : Runtime} {held held' : List Lease}
    → Step r held r' held'
    → r.is_closed ≡ true
    → r'.is_closed ≡ true
unfolding acquire release invalidate
Step-closed (acquire_step id r held) h = ground (arith, h)
Step-closed (release_step id n r before after) h = ground (arith, h)
Step-closed (invalidate_step id r held) h = ground (arith, h)
Step-closed (close_step r held) h = close_closed r

Reach-closed :
    {r : Runtime} {held : List Lease} {r' : Runtime} {held' : List Lease}
    → Reach r held r' held'
    → r.is_closed ≡ true
    → r'.is_closed ≡ true
Reach-closed here h = h
Reach-closed (next reached st) h = Step-closed st (Reach-closed reached h)

-- Once `close` has been called, whatever is called after it: no further lease is given, and a caller
-- that waits for the close is let go exactly when the last lease has been released.
pub close-drain_closed :
    {r r' : Runtime} {held held' : List Lease} (id : Text)
    → Reach new_runtime [] r held
    → Reach (close r) held r' held'
    → ((acquire id r').1 ≡ r') × ((r'.drain_closed ≡ true) ↔ (held' ≡ []))
unfolding acquire
close-drain_closed {r} {r'} {held} {held'} id before after =
    let v = Reach-IsCounted (Reach-join (next before (close_step r held)) after) in
    let c = Reach-closed after (close_closed r) in
    (ground (arith, c), ground (arith, c, v.counted, v.drained))
