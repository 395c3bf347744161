-- ===== src/Token/Laws.antt =====
-- What each operation of internal/mcptoken/service.go leaves behind, in memory and in the store.
use dataporch.Prelude.{
  ℕ, ◌≡◌, ◌≢◌, refl, ◌⊎◌, inl, inr, Option, none, some, arith, Option-cases, ◌++◌, subst, sym,
}
use dataporch.Text.Base64
use dataporch.Text.{Text, bytes, same_self}
use dataporch.Fault.{ok, err, wraps, no_token, Context, background, Fault, Result-cases}
use dataporch.Token.{
  State, state_none, state_active, state_degraded, Metadata, PersistedState, Store, TokenService,
  commit_active, metadata_from_persisted, may_create, may_rotate, new_token_service, generate_token,
  save_and_commit, create, rotate, delete_and_reset, revoke, verify,
}

State-cases : (t : State) → (t ≡ state_none) ⊎ ((t ≡ state_active) ⊎ (t ≡ state_degraded))
State-cases state_none = inl refl
State-cases state_active = inr (inl refl)
State-cases state_degraded = inr (inr refl)

-- A store that does what it reports: after a save that succeeds of a state that it can hold it loads
-- what was saved, and after a deletion that succeeds nothing.
pub record IsStore (Fits : PersistedState → Type 0) {Disk : Type 0} (store : Store Disk)
    : Type 0 where
  pub load_saved :
      (ctx : Context) (p : PersistedState) (disk : Disk)
      → Fits p
      → (store.save ctx p disk).0 ≡ ok tt
      → store.load background (store.save ctx p disk).1 ≡ ok (some p)
  pub load_deleted :
      (ctx : Context) (disk : Disk)
      → (store.delete ctx disk).0 ≡ ok tt
      → store.load background (store.delete ctx disk).1 ≡ ok none

module _ (sum256 : Text → Text) {Disk : Type 0} (store : Store Disk) where
  -- What is left by an operation that issues `token`.
  pub record IsIssued (token : Text) (metadata : Metadata) (s : TokenService) (disk : Disk)
      : Type 0 where
    pub committed : s ≡ commit_active (sum256 token) metadata
    pub accepted : verify sum256 store token s ≡ ok tt
    pub restarted : new_token_service sum256 store disk ≡ s

  module _ (Fits : PersistedState → Type 0) (law : IsStore Fits store) where
    save_and_commit-IsIssued :
        (ctx : Context) (token : Text) (metadata : Metadata) (s : TokenService) (disk : Disk)
        (token' : Text) (metadata' : Metadata)
        → Fits (record {
          verifier = sum256 token;
          created_at = metadata.created_at;
          rotated_at = metadata.rotated_at;
        })
        → (save_and_commit sum256 store ctx token (sum256 token) metadata s disk).0
          ≡ ok (token', metadata')
        → IsIssued token' metadata'
            (save_and_commit sum256 store ctx token (sum256 token) metadata s disk).1.0
            (save_and_commit sum256 store ctx token (sum256 token) metadata s disk).1.1
          × (metadata' ≡ metadata)
    unfolding save_and_commit new_token_service metadata_from_persisted verify
    save_and_commit-IsIssued ctx token metadata s disk token' metadata' fits h =
        let p : PersistedState = record {
          verifier = sum256 token;
          created_at = metadata.created_at;
          rotated_at = metadata.rotated_at;
        } in
        elim (Result-cases (store.save ctx p disk).0) [
          | inl (u, q) ↦
              let loaded = law.load_saved ctx p disk fits q in
              (
                record {
                  committed = ground (arith, q);
                  accepted = ground (arith, q, same_self (sum256 token));
                  restarted = ground (arith, q, loaded);
                },
                ground (arith, q),
              )
          | inr (e, q) ↦ absurd (ground (arith, q))
        ]

    -- With a store that does what it reports: a token that `create` returns is accepted, there was
    -- none before, it has never been rotated, and a restart finds the service as it is then.
    pub create-IsIssued :
        (ctx : Context) (random : Option Text) (now : ℕ) (s : TokenService) (disk : Disk)
        (token : Text) (metadata : Metadata)
        → ((t : Text) → Fits (record { verifier = sum256 t; created_at = now; rotated_at = none }))
        → (create sum256 store ctx random now s disk).0 ≡ ok (token, metadata)
        → (s.state ≡ state_none)
          × (metadata ≡ record { created_at = now; rotated_at = none })
          × IsIssued token metadata
              (create sum256 store ctx random now s disk).1.0
              (create sum256 store ctx random now s disk).1.1
    unfolding create may_create generate_token
    create-IsIssued ctx random now s disk token metadata fits h = elim (State-cases s.state) [
      | inl q ↦ elim (Option-cases random) [
        | inl r ↦ absurd (ground (arith, q, r))
        | inr (x, r) ↦
            let g =
              save_and_commit-IsIssued ctx (bytes "dp-" ++ Base64.encode x)
                (record { created_at = now; rotated_at = none }) s disk token metadata (fits _)
                (ground (arith, q, r)) in
            let e : create sum256 store ctx random now s disk
                ≡ save_and_commit sum256 store ctx (bytes "dp-" ++ Base64.encode x)
                    (sum256 (bytes "dp-" ++ Base64.encode x))
                    (record { created_at = now; rotated_at = none }) s disk =
              ground (arith, q, r) in
            (q, g.1, subst (λ o. IsIssued token metadata o.1.0 o.1.1) (sym e) g.0)
      ]
      | inr (inl q) ↦ absurd (ground (arith, q))
      | inr (inr q) ↦ absurd (ground (arith, q))
    ]

    -- With a store that does what it reports of states that it can hold, and where it can hold the digest
    -- of a token with these times: a token that `rotate` returns is accepted, an active
    -- one was there before, whose time of creation it keeps, and a restart finds the service as it
    -- is then.
    pub rotate-IsIssued :
        (ctx : Context) (random : Option Text) (now : ℕ) (s : TokenService) (disk : Disk)
        (token : Text) (metadata : Metadata)
        → ((t : Text)
            → Fits (record {
              verifier = sum256 t;
              created_at = s.metadata.created_at;
              rotated_at = some now;
            }))
        → (rotate sum256 store ctx random now s disk).0 ≡ ok (token, metadata)
        → (s.state ≡ state_active)
          × (metadata ≡ record { created_at = s.metadata.created_at; rotated_at = some now })
          × IsIssued token metadata
              (rotate sum256 store ctx random now s disk).1.0
              (rotate sum256 store ctx random now s disk).1.1
    unfolding rotate may_rotate generate_token
    rotate-IsIssued ctx random now s disk token metadata fits h = elim (State-cases s.state) [
      | inl q ↦ absurd (ground (arith, q))
      | inr (inl q) ↦ elim (Option-cases random) [
        | inl r ↦ absurd (ground (arith, q, r))
        | inr (x, r) ↦
            let g =
              save_and_commit-IsIssued ctx (bytes "dp-" ++ Base64.encode x)
                (record { created_at = s.metadata.created_at; rotated_at = some now }) s disk token
                metadata (fits _) (ground (arith, q, r)) in
            let e : rotate sum256 store ctx random now s disk
                ≡ save_and_commit sum256 store ctx (bytes "dp-" ++ Base64.encode x)
                    (sum256 (bytes "dp-" ++ Base64.encode x))
                    (record { created_at = s.metadata.created_at; rotated_at = some now }) s disk =
              ground (arith, q, r) in
            (q, g.1, subst (λ o. IsIssued token metadata o.1.0 o.1.1) (sym e) g.0)
      ]
      | inr (inr q) ↦ absurd (ground (arith, q))
    ]

    -- With a store that does what it reports: after `revoke` has succeeded on a service that is not
    -- without a token, every token is refused as there being none, and a restart finds the service
    -- as it is then.
    pub revoke-none :
        (ctx : Context) (s : TokenService) (disk : Disk) (token : Text)
        → s.state ≢ state_none
        → (revoke sum256 store ctx s disk).0 ≡ ok tt
        → (verify sum256 store token (revoke sum256 store ctx s disk).1.0 ≡ err (wraps no_token))
          × (new_token_service sum256 store (revoke sum256 store ctx s disk).1.1
              ≡ (revoke sum256 store ctx s disk).1.0)
    unfolding revoke delete_and_reset verify new_token_service
    revoke-none ctx s disk token present h = elim (State-cases s.state) [
      | inl q ↦ absurd (present q)
      | inr (inl q) ↦ elim (Result-cases (store.delete ctx disk).0) [
        | inl (u, d) ↦ ground (arith, q, d, law.load_deleted ctx disk d)
        | inr (e, d) ↦ absurd (ground (arith, q, d))
      ]
      | inr (inr q) ↦ elim (Result-cases (store.delete ctx disk).0) [
        | inl (u, d) ↦ ground (arith, q, d, law.load_deleted ctx disk d)
        | inr (e, d) ↦ absurd (ground (arith, q, d))
      ]
    ]

  -- If `create` fails, the service is as it was.
  pub create_unchanged :
      (ctx : Context) (random : Option Text) (now : ℕ) (s : TokenService) (disk : Disk) (e : Fault)
      → (create sum256 store ctx random now s disk).0 ≡ err e
      → (create sum256 store ctx random now s disk).1.0 ≡ s
  unfolding create save_and_commit
  create_unchanged ctx random now s disk e h = ground arith

  -- If `rotate` fails, the service is as it was: the old token stays good.
  pub rotate_unchanged :
      (ctx : Context) (random : Option Text) (now : ℕ) (s : TokenService) (disk : Disk) (e : Fault)
      → (rotate sum256 store ctx random now s disk).0 ≡ err e
      → (rotate sum256 store ctx random now s disk).1.0 ≡ s
  unfolding rotate save_and_commit
  rotate_unchanged ctx random now s disk e h = ground arith

  -- If `revoke` fails, the service is as it was.
  pub revoke_unchanged :
      (ctx : Context) (s : TokenService) (disk : Disk) (e : Fault)
      → (revoke sum256 store ctx s disk).0 ≡ err e
      → (revoke sum256 store ctx s disk).1.0 ≡ s
  unfolding revoke delete_and_reset
  revoke_unchanged ctx s disk e h = ground arith
