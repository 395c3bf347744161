-- ===== src/Token.antt =====
-- internal/mcptoken/service.go: the token with which clients reach the MCP endpoint. A mutex makes
-- each operation one step; the store, the digest, the clock and the random bytes are parameters, and
-- a time is a number. `Text` stands for the array of a digest.
pub mod Laws
pub mod History
pub mod Local
use dataporch.Prelude.{ℕ, Bool, List, [], ◌∷◌, ◌++◌, Option, none, some, if◌then◌else◌}
use dataporch.Text.{Text, bytes, same}
use dataporch.Text.Base64
use dataporch.Fault.{
  Result, Checked, ok, err, wraps, token_exists, no_token, invalid_token, token_unavailable, ◌>>=◌,
  ◌>>◌, require, Context, background,
}

-- `State`, with the names of its three constants.
pub data State : Type 0 where
  state_none state_active state_degraded : State

pub record Metadata : Type 0 where
  pub created_at : ℕ
  pub rotated_at : Option ℕ

pub record PersistedState : Type 0 where
  pub verifier : Text
  pub created_at : ℕ
  pub rotated_at : Option ℕ

-- The interface `Store` over what it keeps: each method is given that, and returns what it has become.
pub record Store (Disk : Type 0) : Type 0 where
  pub load : Context → Disk → Result (Option PersistedState)
  pub save : Context → PersistedState → Disk → Checked × Disk
  pub delete : Context → Disk → Checked × Disk

pub record Status : Type 0 where
  pub state : State
  pub metadata : Metadata

-- The fields of `Service` that change.
pub record TokenService : Type 0 where
  pub state : State
  pub verifier : Text
  pub metadata : Metadata

abbrev pub zero_verifier : Text
zero_verifier =
    0 ∷ 0 ∷ 0 ∷ 0 ∷ 0 ∷ 0 ∷ 0 ∷ 0 ∷ 0 ∷ 0 ∷ 0 ∷ 0 ∷ 0 ∷ 0 ∷ 0 ∷ 0 ∷ 0 ∷ 0 ∷ 0 ∷ 0 ∷ 0 ∷ 0 ∷ 0 ∷ 0
    ∷ 0 ∷ 0 ∷ 0 ∷ 0 ∷ 0 ∷ 0 ∷ 0 ∷ 0 ∷ []

abbrev pub zero_metadata : Metadata
zero_metadata = record { created_at = 0; rotated_at = none }

unfoldable pub metadata_from_persisted : PersistedState → Metadata
metadata_from_persisted p = record { created_at = p.created_at; rotated_at = p.rotated_at }

unfoldable pub status : TokenService → Status
status s = record { state = s.state; metadata = s.metadata }

-- What `commitActive` leaves.
abbrev pub commit_active : Text → Metadata → TokenService
commit_active verifier metadata = record {
  state = state_active;
  verifier = verifier;
  metadata = metadata;
}

-- The state checks of `Create` and of `Rotate`.
unfoldable pub may_create : State → Checked
may_create state_none = ok tt
may_create state_degraded = err (wraps token_unavailable)
may_create state_active = err (wraps token_exists)

unfoldable pub may_rotate : State → Checked
may_rotate state_active = ok tt
may_rotate state_degraded = err (wraps token_unavailable)
may_rotate state_none = err (wraps no_token)

-- With the digest `sum256` and a store.
module _ (sum256 : Text → Text) {Disk : Type 0} (store : Store Disk) where
  -- `New`, on what the store holds.
  unfoldable pub new_token_service : Disk → TokenService
  new_token_service disk = elim (store.load background disk) [
    | err e ↦ record { state = state_degraded; verifier = zero_verifier; metadata = zero_metadata }
    | ok found ↦ elim found [
      | none ↦ record { state = state_none; verifier = zero_verifier; metadata = zero_metadata }
      | some p ↦ commit_active p.verifier (metadata_from_persisted p)
    ]
  ]

  -- `generateToken`, on the random bytes, if there are any.
  unfoldable pub generate_token : Option Text → Result (Text × Text)
  generate_token none = err []
  generate_token (some random) =
      let token = bytes "dp-" ++ Base64.encode random in ok (token, sum256 token)

  -- Saving a state and, if that succeeds, committing it.
  unfoldable pub save_and_commit :
      Context
      → Text
      → Text
      → Metadata
      → TokenService
      → Disk
      → Result (Text × Metadata) × (TokenService × Disk)
  save_and_commit ctx token verifier metadata s disk =
      let saved =
        store.save ctx
          (record {
            verifier = verifier;
            created_at = metadata.created_at;
            rotated_at = metadata.rotated_at;
          })
          disk in
      elim saved.0 [
        | err e ↦ (err e, (s, saved.1))
        | ok u ↦ (ok (token, metadata), (commit_active verifier metadata, saved.1))
      ]

  unfoldable pub create :
      Context
      → Option Text
      → ℕ
      → TokenService
      → Disk
      → Result (Text × Metadata) × (TokenService × Disk)
  create ctx random now s disk = elim (may_create s.state) [
    | err e ↦ (err e, (s, disk))
    | ok u ↦ elim (generate_token random) [
      | err e ↦ (err e, (s, disk))
      | ok (token, verifier) ↦
          save_and_commit ctx token verifier (record { created_at = now; rotated_at = none }) s disk
    ]
  ]

  unfoldable pub rotate :
      Context
      → Option Text
      → ℕ
      → TokenService
      → Disk
      → Result (Text × Metadata) × (TokenService × Disk)
  rotate ctx random now s disk = elim (may_rotate s.state) [
    | err e ↦ (err e, (s, disk))
    | ok u ↦ elim (generate_token random) [
      | err e ↦ (err e, (s, disk))
      | ok (token, verifier) ↦
          save_and_commit ctx token verifier
            (record { created_at = s.metadata.created_at; rotated_at = some now }) s disk
    ]
  ]

  -- Deleting what the store holds and, if that succeeds, resetting the service.
  unfoldable pub delete_and_reset : Context → TokenService → Disk → Checked × (TokenService × Disk)
  delete_and_reset ctx s disk =
      let deleted = store.delete ctx disk in
      elim deleted.0 [
        | err e ↦ (err e, (s, deleted.1))
        | ok u ↦ (
          ok tt,
          (
            record { state = state_none; verifier = zero_verifier; metadata = zero_metadata },
            deleted.1,
          ),
        )
      ]

  unfoldable pub revoke : Context → TokenService → Disk → Checked × (TokenService × Disk)
  revoke ctx s disk = elim s.state [
    | state_none ↦ (ok tt, (s, disk))
    | state_active ↦ delete_and_reset ctx s disk
    | state_degraded ↦ delete_and_reset ctx s disk
  ]

  unfoldable pub verify : Text → TokenService → Checked
  verify token s = elim s.state [
    | state_degraded ↦ err (wraps token_unavailable)
    | state_none ↦ err (wraps no_token)
    | state_active ↦ require (same (sum256 token) s.verifier) (wraps invalid_token)
  ]
