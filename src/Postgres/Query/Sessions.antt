-- ===== src/Postgres/Query/Sessions.antt =====
-- The life of a connection in a query of internal/connection/postgres/query.go.
use dataporch.Prelude.{◌≡◌, ◌⊎◌, inl, inr, true, false, [], ◌∷◌, arith}
use dataporch.Text.{Text}
use dataporch.Fault.{Fault, Result, Result-cases, Context, later}
use dataporch.Execution.Types.{RelationalQueryExecutionRequest, RelationalQueryResult}
use dataporch.Postgres.Budget.{Marshal}
use dataporch.Postgres.Errors.{Driver}
use dataporch.Postgres.Rows.{Limits}
use dataporch.Postgres.Query.{
  Event, Log, read_only, exec, acquired, began, released, destroyed, ran, rolled_back, deallocated,
  discarded, World, Opened, missing, unsuitable, ready, cleanup, destroy_connection, clean,
  run_connection, run_pool, run_opened, run_statement, query, check_query,
}

-- The states of a connection: in the pool; held and clean; in a transaction; rolled back;
-- without prepared statements; unfit for another query; gone.
pub data State : Type 0 where
  pooled held reading rolled plain unfit gone : State

-- The only ways in which a connection may be used: a transaction is begun with the access mode ReadOnly,
-- a statement runs only in it, and in the mode Exec, which takes no second statement; only a clean
-- connection returns to the pool, and an unfit one is destroyed.
pub data Use : State → Event → State → Type 0 where
  take_it : Use pooled acquired held
  begin_it : Use held (began read_only true) reading
  not_begun : Use held (began read_only false) held
  run_it : (statement : Text) → Use reading (ran exec statement) reading
  roll_back : Use reading (rolled_back true) rolled
  not_rolled : Use reading (rolled_back false) unfit
  deallocate : Use rolled (deallocated true) plain
  not_deallocated : Use rolled (deallocated false) unfit
  discard : Use plain (discarded true) held
  not_discarded : Use plain (discarded false) unfit
  give_back : Use held released pooled
  destroy_it : Use unfit destroyed gone

-- A log as a run of such uses, for a connection of the pool.
pub data Run : Log → State → Type 0 where
  unused : Run [] pooled
  used : {log : Log} {s s' : State} {e : Event} → Run log s → Use s e s' → Run (e ∷ log) s'

-- A connection that is settled: it was never taken, it is in the pool again, or it is gone.
abbrev pub IsSettled : Log → Type 0
IsSettled log = Run log pooled ⊎ Run log gone

destroy_connection_log :
    (driver : Driver) (w : World) (e : Fault) (log : Log)
    → (destroy_connection driver w e log).1 ≡ destroyed ∷ log
unfolding destroy_connection
destroy_connection_log driver w e log = ground arith

destroyed-IsSettled :
    (driver : Driver) (w : World) (e : Fault) (log : Log)
    → Run log unfit
    → IsSettled (destroy_connection driver w e log).1
destroyed-IsSettled driver w e log h =
    rw (destroy_connection_log driver w e log) (inr (used h destroy_it))

cleanup-IsSettled :
    (driver : Driver) (w : World) (log : Log) → Run log reading → IsSettled (cleanup driver w log).1
unfolding cleanup
cleanup-IsSettled driver w log h = elim (Result-cases w.rollback) [
  | inr (e, q) ↦ rw (q, cleanup) (destroyed-IsSettled driver w e _ (used h not_rolled))
  | inl (u, q) ↦ elim (Result-cases w.deallocate_all) [
    | inr (e, k) ↦
        rw (q, cleanup)
          (rw (k, cleanup)
            (destroyed-IsSettled driver w e _ (used (used h roll_back) not_deallocated)))
    | inl (v, k) ↦ elim (Result-cases w.discard_all) [
      | inr (e, l) ↦
          rw (q, cleanup)
            (rw (k, cleanup)
              (rw (l, cleanup)
                (destroyed-IsSettled driver w e _
                  (used (used (used h roll_back) deallocate) not_discarded))))
      | inl (x, l) ↦
          rw (q, cleanup)
            (rw (k, cleanup)
              (rw (l, cleanup)
                (inl (used (used (used (used h roll_back) deallocate) discard) give_back))))
    ]
  ]
]

clean_log :
    (driver : Driver) (w : World) (r : Result RelationalQueryResult) (log : Log)
    → (clean driver w r log).1 ≡ (cleanup driver w log).1
unfolding clean
clean_log driver w r log = ground arith

module _ (m : Marshal) (l : Limits) (driver : Driver) where
  run_connection-IsSettled :
      (requested : Context) (w : World) (request : RelationalQueryExecutionRequest) (log : Log)
      → Run log held
      → IsSettled (run_connection m l driver requested w request log).1
  unfolding run_connection
  run_connection-IsSettled requested w request log h = elim (Result-cases w.transaction) [
    | inr (e, q) ↦ rw (q, run_connection) (inl (used (used h not_begun) give_back))
    | inl (true, q) ↦
        rw (q, run_connection)
          (rw
            (clean_log driver w (run_statement m l driver requested w request)
              (ran exec request.query ∷ began read_only true ∷ log))
            (cleanup-IsSettled driver w _ (used (used h begin_it) (run_it request.query))))
    | inl (false, q) ↦ rw (q, run_connection) (inl (used (used h not_begun) give_back))
  ]

  run_opened-IsSettled :
      (requested : Context) (w : World) (request : RelationalQueryExecutionRequest) (o : Opened)
      → IsSettled (run_opened m l driver requested w request o).1
  unfolding run_opened run_pool
  run_opened-IsSettled requested w request missing = inl unused
  run_opened-IsSettled requested w request unsuitable = inl unused
  run_opened-IsSettled requested w request ready = elim (Result-cases w.connection) [
    | inr (e, q) ↦ rw (q, run_pool) (inl unused)
    | inl (true, q) ↦
        rw (q, run_pool) (run_connection-IsSettled requested w request _ (used unused take_it))
    | inl (false, q) ↦ rw (q, run_pool) (inl unused)
  ]

  -- However the calls of a query end, what it does to a connection of the pool is a run of the uses
  -- that are allowed: a statement runs only in a transaction that was begun with the access mode
  -- ReadOnly, and a connection that was taken is in the end back in the pool or destroyed. After a
  -- transaction was begun, it is back only if the rollback and both steps of the reset succeeded; where
  -- none could be begun, it is given back at once.
  pub query-IsSettled :
      (requested : Context) (w : World) (request : RelationalQueryExecutionRequest)
      → IsSettled (query m l driver requested w request).1
  unfolding query
  query-IsSettled requested w request = elim (Result-cases (check_query requested request)) [
    | inr (e, q) ↦ rw (q, query) (inl unused)
    | inl (u, q) ↦ elim (Result-cases w.opened) [
      | inr (e, k) ↦ rw (q, query) (rw (k, query) (inl unused))
      | inl (o, k) ↦
          rw (q, query) (rw (k, query) (run_opened-IsSettled (later requested) w request o))
    ]
  ]
