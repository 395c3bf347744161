-- ===== src/Token/History.antt =====
-- Sequences of the operations of internal/mcptoken/service.go, against the view that there is at
-- most one token at a time.
use dataporch.Prelude.{
  ℕ, ◌≡◌, ◌≢◌, refl, ◌⊎◌, inl, inr, ◌↔◌, List, [], ◌∷◌, Option, none, some, arith, Option-cases,
  ◌++◌, subst, sym,
}
use dataporch.Text.Base64
use dataporch.Text.{Text, bytes, same_iff}
use dataporch.Fault.{Result, Checked, ok, err, Context, Result-cases, Fault}
use dataporch.Token.{
  state_active, Metadata, Store, TokenService, may_create, may_rotate, generate_token,
  save_and_commit, create, rotate, delete_and_reset, revoke, verify,
}

-- A call of an operation, with the random bytes and the time that it meets.
pub data Operation : Type 0 where
  create_call : Context → Option Text → ℕ → Operation
  rotate_call : Context → Option Text → ℕ → Operation
  revoke_call : Context → Operation

-- The token handed out last and not revoked since.
abbrev after_issue : Option Text → Result (Text × Metadata) → Option Text
after_issue current (ok (token, metadata)) = some token
after_issue current (err e) = current

abbrev after_revoke : Option Text → Checked → Option Text
after_revoke current (ok u) = none
after_revoke current (err e) = current

module _ (sum256 : Text → Text) {Disk : Type 0} (store : Store Disk) where
  -- One call, with the current token kept beside the service and the store.
  unfoldable pub step :
      Operation → Option Text → TokenService → Disk → Option Text × (TokenService × Disk)
  step (create_call ctx random now) current s disk =
      let answer = create sum256 store ctx random now s disk in
      (after_issue current answer.0, answer.1)
  step (rotate_call ctx random now) current s disk =
      let answer = rotate sum256 store ctx random now s disk in
      (after_issue current answer.0, answer.1)
  step (revoke_call ctx) current s disk =
      let answer = revoke sum256 store ctx s disk in (after_revoke current answer.0, answer.1)

  unfoldable pub run :
      List Operation → Option Text → TokenService → Disk → Option Text × (TokenService × Disk)
  run [] current s disk = (current, (s, disk))
  run (op ∷ ops) current s disk =
      let next = step op current s disk in run ops next.0 next.1.0 next.1.1

  -- The service accepts the current token's digest, and is not active if there is none.
  abbrev Agrees : Option Text → TokenService → Type 0
  Agrees none s = s.state ≢ state_active
  Agrees (some token) s = (s.state ≡ state_active) × (s.verifier ≡ sum256 token)

  save_and_commit-Agrees :
      (ctx : Context) (token : Text) (metadata : Metadata) (current : Option Text)
      (s : TokenService) (disk : Disk)
      → Agrees current s
      → Agrees
          (after_issue current
            (save_and_commit sum256 store ctx token (sum256 token) metadata s disk).0)
          (save_and_commit sum256 store ctx token (sum256 token) metadata s disk).1.0
  unfolding save_and_commit
  save_and_commit-Agrees ctx token metadata current s disk h = ground (arith, h)

  -- An answer that fails at once, or saves a token with its digest.
  abbrev Issues : TokenService → Disk → Result (Text × Metadata) × (TokenService × Disk) → Type 0
  Issues s disk answer =
      ((e : Fault) × (answer ≡ (err e, (s, disk))))
      ⊎ ((ctx : Context) × (token : Text) × (metadata : Metadata) × (answer
            ≡ save_and_commit sum256 store ctx token (sum256 token) metadata s disk))

  create_cases :
      (ctx : Context) (random : Option Text) (now : ℕ) (s : TokenService) (disk : Disk)
      → Issues s disk (create sum256 store ctx random now s disk)
  unfolding create generate_token
  create_cases ctx random now s disk = elim (Result-cases (may_create s.state)) [
    | inr (e, q) ↦ inl (e, ground (arith, q))
    | inl (u, q) ↦ elim (Option-cases random) [
      | inl r ↦ inl ([], ground (arith, q, r))
      | inr (x, r) ↦ inr (
        ctx,
        bytes "dp-" ++ Base64.encode x,
        record { created_at = now; rotated_at = none },
        ground (arith, q, r),
      )
    ]
  ]

  rotate_cases :
      (ctx : Context) (random : Option Text) (now : ℕ) (s : TokenService) (disk : Disk)
      → Issues s disk (rotate sum256 store ctx random now s disk)
  unfolding rotate generate_token
  rotate_cases ctx random now s disk = elim (Result-cases (may_rotate s.state)) [
    | inr (e, q) ↦ inl (e, ground (arith, q))
    | inl (u, q) ↦ elim (Option-cases random) [
      | inl r ↦ inl ([], ground (arith, q, r))
      | inr (x, r) ↦ inr (
        ctx,
        bytes "dp-" ++ Base64.encode x,
        record { created_at = s.metadata.created_at; rotated_at = some now },
        ground (arith, q, r),
      )
    ]
  ]

  issue-Agrees :
      (current : Option Text) (s : TokenService) (disk : Disk)
      {answer : Result (Text × Metadata) × (TokenService × Disk)}
      → Agrees current s
      → Issues s disk answer
      → Agrees (after_issue current answer.0) answer.1.0
  issue-Agrees current s disk h (inl (e, q)) =
      subst (λ a. Agrees (after_issue current a.0) a.1.0) (sym q) h
  issue-Agrees current s disk h (inr (ctx, token, metadata, q)) =
      subst (λ a. Agrees (after_issue current a.0) a.1.0) (sym q)
        (save_and_commit-Agrees ctx token metadata current s disk h)

  step-Agrees :
      (op : Operation) (current : Option Text) (s : TokenService) (disk : Disk)
      → Agrees current s
      → Agrees (step op current s disk).0 (step op current s disk).1.0
  unfolding step create rotate revoke delete_and_reset generate_token
  step-Agrees (create_call ctx random now) current s disk h =
      issue-Agrees current s disk h (create_cases ctx random now s disk)
  step-Agrees (rotate_call ctx random now) current s disk h =
      issue-Agrees current s disk h (rotate_cases ctx random now s disk)
  step-Agrees (revoke_call ctx) current s disk h = elim (Result-cases (store.delete ctx disk).0) [
    | inl (u, q) ↦ ground (arith, q)
    | inr (e, q) ↦ ground (arith, h, q)
  ]

  run-Agrees :
      (ops : List Operation) (current : Option Text) (s : TokenService) (disk : Disk)
      → Agrees current s
      → Agrees (run ops current s disk).0 (run ops current s disk).1.0
  unfolding run
  run-Agrees [] current s disk h = h
  run-Agrees (op ∷ ops) current s disk h =
      let next = step op current s disk in
      run-Agrees ops next.0 next.1.0 next.1.1 (step-Agrees op current s disk h)

  verify-Agrees :
      (token : Text) (current : Option Text) (s : TokenService)
      → Agrees current s
      → (verify sum256 store token s ≡ ok tt)
        ↔ ((c : Text) × (current ≡ some c) × (sum256 token ≡ sum256 c))
  unfolding verify
  verify-Agrees token none s h = (λ e. absurd (ground (arith, h)), λ p. ground arith)
  verify-Agrees token (some c) s h = (
    λ e. (c, refl, ground (arith, h, same_iff (sum256 token) s.verifier)),
    λ (k, q, e). ground (arith, h, same_iff (sum256 token) s.verifier),
  )

  -- After any calls, in any order and with any outcomes of the store and the random source, from a
  -- service that is not active: a token is accepted exactly if one was handed out that has not been
  -- replaced or revoked since, and the two have the same digest.
  pub verify-run :
      (ops : List Operation) (s : TokenService) (disk : Disk) (token : Text)
      → s.state ≢ state_active
      → (verify sum256 store token (run ops none s disk).1.0 ≡ ok tt)
        ↔ ((c : Text) × ((run ops none s disk).0 ≡ some c) × (sum256 token ≡ sum256 c))
  verify-run ops s disk token h =
      verify-Agrees token (run ops none s disk).0 (run ops none s disk).1.0
        (run-Agrees ops none s disk h)
