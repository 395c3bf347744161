-- ===== src/Transports/Auth/Laws.antt =====
-- Who reaches the MCP endpoint through the handlers of internal/transports/mcpauth and
-- internal/transports/localmcp.
use dataporch.Prelude.{
  ◌≡◌, ◌≢◌, subst, refl, sym, ap, ◌∙◌, ◌↔◌, ◌⊎◌, inl, inr, Bool, true, List, [], ◌∷◌, none, some,
  arith, Option-cases, length,
}
use dataporch.Text.{Text, bytes, same_self, same_iff}
use dataporch.Text.Words.{fields}
use dataporch.Text.Base64
use dataporch.Fault.{ok, Checked, Result-cases}
use dataporch.Token.{Store, TokenService, state_active}
use dataporch.Token
use dataporch.Token.History.{Operation, run, verify-run}
use dataporch.Transports.Auth.{
  served, Bearer, credential, challenge, bearer_parts, bearer_credential, handle, handle_local,
  generate, validate, verify, raw_of,
}

-- The header Authorization stands once, and is the scheme and a token.
abbrev pub Presents : (Text → Text → Bool) → List Text → Text → Type 0
Presents equal_fold values token =
    (value : Text) × (scheme : Text) × (values ≡ value ∷ [])
    × (fields value ≡ scheme ∷ token ∷ [])
    × (equal_fold scheme (bytes "Bearer") ≡ true)

Bearer-cases :
    (b : Bearer) → ((token : Text) × (b ≡ credential token)) ⊎ ((c : Text) × (b ≡ challenge c))
Bearer-cases (credential token) = inl (token, refl)
Bearer-cases (challenge c) = inr (c, refl)

module _ (equal_fold : Text → Text → Bool) where
  bearer_parts_lem :
      (words : List Text) (token : Text)
      → bearer_parts equal_fold words ≡ credential token
      → (scheme : Text) × (words ≡ scheme ∷ token ∷ [])
        × (equal_fold scheme (bytes "Bearer") ≡ true)
  unfolding bearer_parts
  bearer_parts_lem [] token h = absurd (ground (arith, h))
  bearer_parts_lem (scheme ∷ []) token h = absurd (ground (arith, h))
  bearer_parts_lem (scheme ∷ value ∷ []) token h = (scheme, ground (arith, h), ground (arith, h))
  bearer_parts_lem (scheme ∷ value ∷ more ∷ rest) token h = absurd (ground (arith, h))

  bearer_credential→Presents :
      (values : List Text) (token : Text)
      → bearer_credential equal_fold values ≡ credential token
      → Presents equal_fold values token
  unfolding bearer_credential
  bearer_credential→Presents [] token h = absurd (ground (arith, h))
  bearer_credential→Presents (value ∷ []) token h =
      let (scheme, words, fold) = bearer_parts_lem (fields value) token h in
      (value, scheme, refl, words, fold)
  bearer_credential→Presents (value ∷ other ∷ rest) token h = absurd (ground (arith, h))

  Presents→bearer_credential :
      (values : List Text) (token : Text)
      → Presents equal_fold values token
      → bearer_credential equal_fold values ≡ credential token
  unfolding bearer_credential bearer_parts
  Presents→bearer_credential values token (value, scheme, q, words, fold) =
      rw q (rw words (rw fold refl))

  handle-served :
      (verify_token : Text → Checked) (values : List Text)
      → (handle equal_fold verify_token values ≡ served)
        ↔ ((token : Text) × Presents equal_fold values token × (verify_token token ≡ ok tt))
  unfolding handle
  handle-served verify_token values = (
    λ h. elim (Bearer-cases (bearer_credential equal_fold values)) [
      | inr (c, q) ↦ absurd (ground (arith, q, h))
      | inl (token, q) ↦ (token, bearer_credential→Presents values token q, ground (arith, q, h))
    ],
    λ (token, p, v). ground (arith, Presents→bearer_credential values token p, v),
  )

  -- After any calls of the token service, in any order and with any outcomes, from a service that is
  -- not active: a request is handed on exactly if its one header Authorization presents a token with
  -- the digest of the token that was handed out last and not replaced or revoked since.
  pub handle-run :
      (sum256 : Text → Text) {Disk : Type 0} (store : Store Disk) (ops : List Operation)
      (s : TokenService) (disk : Disk) (values : List Text)
      → s.state ≢ state_active
      → (handle equal_fold
            (λ t. Token.verify sum256 store t (run sum256 store ops none s disk).1.0)
            values
          ≡ served)
        ↔ ((token : Text) × (c : Text) × Presents equal_fold values token
            × ((run sum256 store ops none s disk).0 ≡ some c)
            × (sum256 token ≡ sum256 c))
  handle-run sum256 store ops s disk values h =
      let check =
        λ (t : Text). Token.verify sum256 store t (run sum256 store ops none s disk).1.0 in
      let through = handle-served check values in
      (
        λ k.
            let (token, p, v) = through.0 k in
            let (c, q, e) = (verify-run sum256 store ops s disk token h).0 v in (token, c, p, q, e),
        λ (token, c, p, q, e).
            through.1 (token, p, (verify-run sum256 store ops s disk token h).1 (c, q, e)),
      )

validate_lem :
    (c : Text)
    → validate c ≡ ok tt
    → (raw : Text) × (Base64.decode c ≡ some raw) × (Base64.encode raw ≡ c)
unfolding validate
validate_lem c h = elim (Option-cases (Base64.decode c)) [
  | inl q ↦ absurd (ground (arith, q, h))
  | inr (raw, q) ↦ (raw, q, ground (arith, q, h, same_iff (Base64.encode raw) c))
]

-- A local credential is accepted exactly if the expected one is well formed and the two are equal.
verify_iff :
    (expected presented : Text)
    → (verify expected presented ≡ ok tt) ↔ ((validate expected ≡ ok tt) × (presented ≡ expected))
unfolding verify
verify_iff expected presented = (
  λ h. elim (Result-cases (validate expected)) [
    | inr (e, q) ↦ absurd (ground (arith, q, h))
    | inl (u, q) ↦ elim (Result-cases (validate presented)) [
      | inr (e, k) ↦ absurd (ground (arith, q, k, h))
      | inl (v, k) ↦
          let (a, da, ea) = validate_lem expected q in
          let (b, db, eb) = validate_lem presented k in
          let equal : a ≡ b = ground (arith, q, k, h, da, db, same_iff a b) in
          (q, sym eb ∙ ap Base64.encode (sym equal) ∙ ea)
    ]
  ],
  λ (q, e). rw e (ground (arith, q, same_self (raw_of expected))),
)

generate_lem :
    (raw : Text) → Base64.IsBytes raw → length raw ≡ 32 → validate (Base64.encode raw) ≡ ok tt
unfolding validate
generate_lem raw h k = ground (arith, Base64.decode-encode raw h, k, same_self (Base64.encode raw))

-- With a credential that was generated from 32 random bytes, the local endpoint hands on exactly the
-- requests whose one header Authorization presents that credential.
pub handle_local-generate :
    (equal_fold : Text → Text → Bool) (raw made : Text) (values : List Text)
    → Base64.IsBytes raw
    → length raw ≡ 32
    → generate (some raw) ≡ ok made
    → (handle_local equal_fold verify made values ≡ served) ↔ Presents equal_fold values made
unfolding handle_local generate
handle_local-generate equal_fold raw made values h k g =
    let same_credential : Base64.encode raw ≡ made = ground (arith, g) in
    let valid : validate made ≡ ok tt = rw⁻¹ same_credential (generate_lem raw h k) in
    (
      λ s. elim (Bearer-cases (bearer_credential equal_fold values)) [
        | inr (c, q) ↦ absurd (ground (arith, q, s))
        | inl (token, q) ↦
            let accepted : verify made token ≡ ok tt = ground (arith, q, s) in
            let equal = ((verify_iff made token).0 accepted).1 in
            subst (Presents equal_fold values) equal
              (bearer_credential→Presents equal_fold values token q)
      ],
      λ p. ground (
        arith,
        Presents→bearer_credential equal_fold values made p,
        (verify_iff made made).1 (valid, refl),
      ),
    )
