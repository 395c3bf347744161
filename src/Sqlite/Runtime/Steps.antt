-- ===== src/Sqlite/Runtime/Steps.antt =====
-- What callers do to a runtime of internal/connection/sqlite/runtime.go, in any order.
use dataporch.Prelude.{ℕ, List, ◌∷◌, ◌++◌}
use dataporch.Text.{Text}
use dataporch.Fault.{Result, ok, err}
use dataporch.Sqlite.Runtime.{Runtime, acquire, release, invalidate, close}

-- A lease is the database and the entry that its `release` was made for.
abbrev pub Lease : Type 0
Lease = Text × ℕ

abbrev pub with_lease : Text → Result ℕ → List Lease → List Lease
with_lease id (ok n) held = (id, n) ∷ held
with_lease id (err e) held = held

-- What callers do, in any order, to a runtime and the leases that they hold: a lease is released
-- once, since a client closes once.
pub data Step : Runtime → List Lease → Runtime → List Lease → Type 0 where
  acquire_step :
      (id : Text) (r : Runtime) (held : List Lease)
      → Step r held (acquire id r).1 (with_lease id (acquire id r).0 held)
  release_step :
      (id : Text) (n : ℕ) (r : Runtime) (before after : List Lease)
      → Step r (before ++ ((id, n) ∷ after)) (release id n r) (before ++ after)
  invalidate_step :
      (id : Text) (r : Runtime) (held : List Lease) → Step r held (invalidate id r) held
  close_step : (r : Runtime) (held : List Lease) → Step r held (close r) held

pub data Reach (start : Runtime) (had : List Lease) : Runtime → List Lease → Type 0 where
  here : Reach start had start had
  next :
      {r r' : Runtime} {held held' : List Lease}
      → Reach start had r held
      → Step r held r' held'
      → Reach start had r' held'

pub Reach-join :
    {a : Runtime} {held_a : List Lease} {b : Runtime} {held_b : List Lease} {c : Runtime}
    {held_c : List Lease}
    → Reach a held_a b held_b
    → Reach b held_b c held_c
    → Reach a held_a c held_c
Reach-join r here = r
Reach-join r (next s st) = next (Reach-join r s) st
