-- ===== src/Postgres/Opener.antt =====
-- internal/connection/postgres/opener.go: one cached pool for each database, opened by one shared
-- attempt. Each function that holds the mutex is one step. Pools and attempts are numbered in the
-- order in which they are made; the channel of an attempt is its outcome.
pub mod Steps
pub mod Counts
pub mod Owned
pub mod Pools
pub mod Answers
pub mod Laws
use dataporch.Prelude.{
  ℕ, suc, ◌+◌, Bool, true, false, ◌&&◌, not, List, [], ◌∷◌, ◌++◌, Option, none, some, if◌then◌else◌,
  ◌==◌, length,
}
use dataporch.Text.{Text, bytes, same}
use dataporch.Fault.{
  Fault, Checked, Result, ok, err, wraps, sentinel, is, connection_unavailable, database_not_found,
  unsupported_kind, open_timeout, runtime_closed, shutdown_timeout, open_invalidated, ◌>>=◌, ◌>>◌,
  require, or_else, Context, nil_context, context, later,
}
use dataporch.Assoc.{Assoc, lookup, insert, remove}
use dataporch.Connection.Definition.{ResolvedDefinition, validate}

-- `client` is the number of its pool, `attempt` that of its attempt.
pub record CacheEntry : Type 0 where
  pub generation : ℕ
  pub client : Option ℕ
  pub attempt : Option ℕ

-- `cancelled` is the cause that `cancel` was first called with, `outcome` what `done` announces.
pub record OpenAttempt : Type 0 where
  pub id : Text
  pub generation : ℕ
  pub cancelled : Option Fault
  pub outcome : Option (Result ℕ)

-- The fields that change; `attempts` are all attempts so far, the last one first, `made` counts the
-- pools that were made, and `closing` are the pools that were handed to a closing goroutine.
pub record Opener : Type 0 where
  pub entries : Assoc CacheEntry
  pub generations : Assoc ℕ
  pub attempts : List OpenAttempt
  pub made : ℕ
  pub closing : List ℕ
  pub is_closed : Bool

unfoldable pub new_opener : Opener
new_opener = record {
  entries = [];
  generations = [];
  attempts = [];
  made = 0;
  closing = [];
  is_closed = false;
}

-- An attempt by its number.
unfoldable pub attempt_at : ℕ → List OpenAttempt → Option OpenAttempt
attempt_at n [] = none
attempt_at n (a ∷ rest) = if n == length rest then some a else attempt_at n rest

unfoldable pub update_attempt :
    ℕ → (OpenAttempt → OpenAttempt) → List OpenAttempt → List OpenAttempt
update_attempt n f [] = []
update_attempt n f (a ∷ rest) = if n == length rest then f a ∷ rest else a ∷ update_attempt n f rest

-- `cancel(cause)`: the first cause stays.
abbrev pub cancel : Fault → OpenAttempt → OpenAttempt
cancel e a = record a { cancelled = elim a.cancelled [ none ↦ some e | some old ↦ some old ] }

abbrev pub conclude : Result ℕ → OpenAttempt → OpenAttempt
conclude r a = record a { outcome = some r }

-- `o.generations[id]`.
abbrev pub generation_of : Text → Opener → ℕ
generation_of id o = elim (lookup id o.generations) [ none ↦ 0 | some g ↦ g ]

-- What the locked section of `openRaw` leads to.
pub data Acquired : Type 0 where
  refused : Acquired
  cached : ℕ → Acquired
  joined : ℕ → Acquired

-- It starts an attempt where there is neither a pool nor an attempt.
unfoldable pub start_attempt : Text → Opener → Acquired × Opener
start_attempt id o =
    let n = length o.attempts in
    let g = generation_of id o in
    (
      joined n,
      record o {
        entries = insert id (record { generation = g; client = none; attempt = some n }) o.entries;
        attempts =
            record { id = id; generation = g; cancelled = none; outcome = none } ∷ o.attempts;
      },
    )

unfoldable pub acquire : Text → Opener → Acquired × Opener
acquire id o = if o.is_closed then (refused, o) else elim (lookup id o.entries) [
  | none ↦ start_attempt id o
  | some e ↦ elim e.client [
    | some p ↦ (cached p, o)
    | none ↦ elim e.attempt [ some n ↦ (joined n, o) | none ↦ start_attempt id o ]
  ]
]

-- What `openRaw` asks before it takes the lock.
unfoldable pub check_open : Context → Text → Checked
check_open nil_context id = err []
check_open (context e) id = do
  elim (e 0) [ none ↦ ok tt | some s ↦ err (wraps s) ]
  or_else (validate (record { id = id; kind = bytes "postgres"; settings = []; secret_refs = [] }))
      (λ x. [])

-- What an attempt meets: what `Prepare`, `New` (a pool, or nil) and `Ping` return, and the cause of
-- its context after each of them.
pub record Surroundings : Type 0 where
  pub prepared : Result ResolvedDefinition
  pub created : Result Bool
  pub pinged : Checked
  pub cause_prepared : Option Fault
  pub cause_created : Option Fault
  pub cause_pinged : Option Fault

-- `rawAttemptError`.
abbrev raw_attempt_error : Option Fault → Fault → Fault
raw_attempt_error none e = e
raw_attempt_error (some cause) e = cause

-- `openRuntime` up to the making of the pool.
unfoldable pub create_pool : Text → Surroundings → Checked
create_pool id w = do
  resolved ← or_else w.prepared (raw_attempt_error w.cause_prepared)
  require (same resolved.id id) []
  require (same resolved.kind (bytes "postgres")) (wraps unsupported_kind)
  is_made ← or_else w.created (raw_attempt_error w.cause_created)
  require is_made []

-- The rest of it, on a pool that was made: it answers to a ping, and nothing cancelled the attempt.
unfoldable pub try_pool : Surroundings → Checked
try_pool w = do
  or_else w.pinged (raw_attempt_error w.cause_pinged)
  elim w.cause_pinged [ none ↦ ok tt | some cause ↦ err cause ]

-- The entry that `isCurrent` is about: the one that waits for this attempt, in an open cache, with
-- the generation unchanged.
unfoldable pub current_entry : Text → ℕ → ℕ → Opener → Option CacheEntry
current_entry id generation n o =
    if not o.is_closed && (generation_of id o == generation)
    then elim (lookup id o.entries) [
      | none ↦ none
      | some e ↦ elim e.attempt [ none ↦ none | some m ↦ if m == n then some e else none ]
    ]
    else none

-- `publishAttemptLocked`, where a client is a pool.
unfoldable pub publish_attempt : Text → CacheEntry → ℕ → Result ℕ → Opener → Opener
publish_attempt id e n (ok p) o = record o {
  entries = insert id (record e { client = some p; attempt = none }) o.entries;
  attempts = update_attempt n (conclude (ok p)) o.attempts;
}
publish_attempt id e n (err x) o = record o {
  entries = remove id o.entries;
  attempts = update_attempt n (conclude (err x)) o.attempts;
}

-- `rejectAttemptLocked`, and the closing of the pool that it returns.
unfoldable pub reject_attempt : ℕ → Result ℕ → Opener → Opener
reject_attempt n (ok p) o = record o {
  attempts =
      update_attempt n (conclude (err (if o.is_closed then wraps runtime_closed else [])))
        o.attempts;
  closing = p ∷ o.closing;
}
reject_attempt n (err e) o = record o {
  attempts =
      update_attempt n (conclude (err (if o.is_closed then wraps runtime_closed else e)))
        o.attempts;
}

-- `finishAttempt`.
unfoldable pub finish_attempt : Text → ℕ → ℕ → Result ℕ → Opener → Opener
finish_attempt id generation n r o = elim (current_entry id generation n o) [
  | some e ↦ publish_attempt id e n r o
  | none ↦ reject_attempt n r o
]

-- `runAttempt`. What it does before `finishAttempt` takes the lock touches nothing but a pool of its
-- own, so the whole is one step; a pool that does not answer is handed to a closer.
unfoldable pub run_attempt : ℕ → OpenAttempt → Surroundings → Opener → Opener
run_attempt n a w o = elim (create_pool a.id w) [
  | err e ↦ finish_attempt a.id a.generation n (err e) o
  | ok u ↦ elim (try_pool w) [
    | ok v ↦ finish_attempt a.id a.generation n (ok o.made) (record o { made = o.made + 1 })
    | err e ↦
        finish_attempt a.id a.generation n (err e)
          (record o { made = o.made + 1; closing = o.made ∷ o.closing })
  ]
]

-- Its `attempt.cancel`, and the pool that goes to a closer.
abbrev pub detach : Fault → CacheEntry → Opener → Opener
detach cause e o = record o {
  attempts = elim e.attempt [
    | none ↦ o.attempts
    | some n ↦ update_attempt n (cancel cause) o.attempts
  ];
  closing = elim e.client [ none ↦ o.closing | some p ↦ p ∷ o.closing ];
}

-- `Invalidate`.
unfoldable pub invalidate : Text → Opener → Opener
invalidate id o =
    if o.is_closed
    then o
    else let raised = record o {
      generations = insert id (generation_of id o + 1) o.generations;
      entries = remove id o.entries;
    } in
      elim (lookup id o.entries) [
        | none ↦ raised
        | some e ↦ detach (wraps open_invalidated) e raised
      ]

-- The loop of `Close` over the entries.
unfoldable pub detach_all : Assoc CacheEntry → Opener → Opener
detach_all [] o = o
detach_all ((id, e) ∷ rest) o = detach_all rest (detach (wraps runtime_closed) e o)

-- The locked section of `Close`.
unfoldable pub close : Opener → Opener
close o =
    if o.is_closed then o else detach_all o.entries (record o { is_closed = true; entries = [] })
