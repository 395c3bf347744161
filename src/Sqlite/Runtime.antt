-- ===== src/Sqlite/Runtime.antt =====
-- internal/connection/sqlite/runtime.go: the leases on the databases that are open. Each function that
-- holds the mutex is one step; a logical entry is known by its number, which counts the entries so far.
pub mod Steps
pub mod Leases
use dataporch.Prelude.{
  ℕ, suc, ◌+◌, ◌-◌, Bool, true, false, not, ◌&&◌, ◌||◌, List, [], ◌∷◌, Option, none, some,
  if◌then◌else◌, ◌==◌, ltb, length,
}
use dataporch.Text.{Text, bytes, same, contains_byte}
use dataporch.Text.Utf8.{valid_string}
use dataporch.Fault.{
  Fault, Result, ok, err, wraps, sentinel, require, or_fail, ◌>>=◌, ◌>>◌, runtime_unavailable,
  runtime_closed,
}
use dataporch.Assoc.{Assoc, lookup, insert, remove}
use dataporch.Connection.Definition.{ResolvedDefinition}

pub record LogicalEntry : Type 0 where
  pub active : ℕ
  pub detached : Bool

-- The fields that change, and `logical`: all entries so far, the last one first.
pub record Runtime : Type 0 where
  pub is_closed : Bool
  pub active : ℕ
  pub entries : Assoc ℕ
  pub logical : List LogicalEntry
  pub drain_closed : Bool

unfoldable pub new_runtime : Runtime
new_runtime = record {
  is_closed = false;
  active = 0;
  entries = [];
  logical = [];
  drain_closed = false;
}

-- An entry by its number.
unfoldable pub entry_at : ℕ → List LogicalEntry → Option LogicalEntry
entry_at n [] = none
entry_at n (e ∷ rest) = if n == length rest then some e else entry_at n rest

unfoldable pub update_entry :
    ℕ → (LogicalEntry → LogicalEntry) → List LogicalEntry → List LogicalEntry
update_entry n f [] = []
update_entry n f (e ∷ rest) = if n == length rest then f e ∷ rest else e ∷ update_entry n f rest

abbrev pub grow : LogicalEntry → LogicalEntry
grow e = record e { active = e.active + 1 }

-- `if entry.active > 0 { entry.active-- }`: on natural numbers that is subtraction.
abbrev pub shrink : LogicalEntry → LogicalEntry
shrink e = record e { active = e.active - 1 }

abbrev pub detach : LogicalEntry → LogicalEntry
detach e = record e { detached = true }

-- The entry of a database that is not detached, if there is one.
unfoldable pub attached : Text → Runtime → Option ℕ
attached id r = elim (lookup id r.entries) [
  | none ↦ none
  | some n ↦ elim (entry_at n r.logical) [
    | none ↦ none
    | some e ↦ if e.detached then none else some n
  ]
]

-- `acquire`, with the entry that the function it returns will release.
unfoldable pub acquire : Text → Runtime → Result ℕ × Runtime
acquire id r =
    if r.is_closed
    then (err (sentinel runtime_unavailable ∷ wraps runtime_closed), r)
    else elim (attached id r) [
      | some n ↦ (ok n, record r { active = r.active + 1; logical = update_entry n grow r.logical })
      | none ↦ (
        ok (length r.logical),
        record r {
          active = r.active + 1;
          entries = insert id (length r.logical) r.entries;
          logical = record { active = 1; detached = false } ∷ r.logical;
        },
      )
    ]

-- `closeDrainLocked`.
abbrev pub close_drain : Runtime → Runtime
close_drain r = record r { drain_closed = true }

-- The entry has no lease left and is the one that the map holds.
unfoldable pub is_last : Text → ℕ → Runtime → Bool
is_last id n r = elim (entry_at n r.logical) [
  | none ↦ false
  | some e ↦ elim (lookup id r.entries) [ none ↦ false | some m ↦ e.active == 0 && m == n ]
]

unfoldable pub release : Text → ℕ → Runtime → Runtime
release id n r =
    let less = record r { active = r.active - 1; logical = update_entry n shrink r.logical } in
    let dropped =
      if is_last id n less then record less { entries = remove id less.entries } else less in
    if dropped.is_closed && dropped.active == 0 then close_drain dropped else dropped

unfoldable pub invalidate : Text → Runtime → Runtime
invalidate id r = if r.is_closed then r else elim (lookup id r.entries) [
  | none ↦ r
  | some n ↦ record r { entries = remove id r.entries; logical = update_entry n detach r.logical }
]

-- The loop of `Close` over the entries.
unfoldable pub detach_all : Assoc ℕ → List LogicalEntry → List LogicalEntry
detach_all [] l = l
detach_all ((id, n) ∷ rest) l = detach_all rest (update_entry n detach l)

-- The locked section of `Close`.
unfoldable pub close : Runtime → Runtime
close r =
    if r.is_closed
    then r
    else let closed = record r {
      is_closed = true;
      entries = [];
      logical = detach_all r.entries r.logical;
    } in
      if r.active == 0 then close_drain closed else closed

-- `resolvedPath`.
unfoldable pub resolved_path : Text → ResolvedDefinition → Result Text
resolved_path id resolved = do
  require (same resolved.id id && same resolved.kind (bytes "sqlite")) []
  require (length resolved.secrets == 1) []
  path ← or_fail (lookup (bytes "path") resolved.secrets) []
  require (not (same path []) && valid_string path) []
  require (not (contains_byte 0 path)) []
  ok path
