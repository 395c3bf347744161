-- ===== src/Connection/Manager/Prepare.antt =====
-- What `Prepare` of internal/connection/manager.go resolves.
use dataporch.Prelude.{
  ◌≡◌, ◌∙◌, inl, inr, Bool, true, false, List, [], ◌∷◌, Option, none, some, arith, any, subst,
  Option-cases, Bool-cases,
}
use dataporch.Text.{Text, same, same_iff}
use dataporch.Fault.{
  Fault, ok, err, later, Context, Result-cases, is, connection_unavailable, context, nil_context,
}
use dataporch.Assoc.{Assoc, lookup, insert, keys, lookup-insert, any-keys, any-keys-some}
use dataporch.Sort.{sort, any-sort}
use dataporch.Connection.Definition.{Definition, ResolvedDefinition}
use dataporch.Connection.Manager.{Manager, Resolver, resolve_all, prepare, prepare_context, find}

-- The reference that a name has.
abbrev ref_of : Assoc Text → Text → Text
ref_of refs name = elim (lookup name refs) [ none ↦ [] | some r ↦ r ]

abbrev mem : Text → List Text → Bool
mem n = any (λ k. same k n)

-- What the resolved secrets hold for a name whose reference, if it has one, is `ref`.
abbrev pub IsResolved : Resolver → Context → Option Text → Option Text → Type 0
IsResolved resolve ctx none secret = secret ≡ none
IsResolved resolve ctx (some ref) secret =
    (value : Text) × (resolve ctx ref ≡ ok value) × (secret ≡ some value)

module _ (resolve : Resolver) (ctx : Context) (refs : Assoc Text) where
  -- The loop leaves the names that it is not given as they are.
  resolve_all_rest :
      (names : List Text) (done secrets : Assoc Text) (n : Text)
      → resolve_all resolve ctx refs names done ≡ ok secrets
      → mem n names ≡ false
      → lookup n secrets ≡ lookup n done
  unfolding resolve_all
  resolve_all_rest [] done secrets n e h = ground arith
  resolve_all_rest (x ∷ xs) done secrets n e h = elim (Result-cases (resolve ctx (ref_of refs x))) [
    | inl (v, q) ↦
        ground (arith, resolve_all_rest xs (insert x v done) secrets n, lookup-insert x n v done)
    | inr (f, q) ↦ ground arith
  ]

  -- To each name that it is given it leads what the resolver returned.
  resolve_all_given :
      (names : List Text) (done secrets : Assoc Text) (n : Text)
      → resolve_all resolve ctx refs names done ≡ ok secrets
      → mem n names ≡ true
      → (v : Text) × (resolve ctx (ref_of refs n) ≡ ok v) × (lookup n secrets ≡ some v)
  unfolding resolve_all
  resolve_all_given [] done secrets n e h = cc
  resolve_all_given (x ∷ xs) done secrets n e h =
      elim (Result-cases (resolve ctx (ref_of refs x))) [
        | inl (v, q) ↦ elim (Bool-cases (mem n xs)) [
          | inl later ↦ resolve_all_given xs (insert x v done) secrets n (ground arith) later
          | inr last ↦
              let hit : same x n ≡ true = ground arith in
              (
                v,
                subst (λ k. resolve ctx (ref_of refs k) ≡ ok v) ((same_iff x n).0 hit) q,
                ground (
                  arith,
                  resolve_all_rest xs (insert x v done) secrets n,
                  lookup-insert x n v done,
                ),
              )
        ]
        | inr (f, q) ↦ absurd (ground arith)
      ]

  abbrev names : List Text
  names = sort (λ n. n) (keys refs)

  mem-names : (n : Text) → mem n names ≡ mem n (keys refs)
  mem-names n = any-sort (λ k. k) (λ k. same k n) (keys refs)

  resolve_all-IsResolved :
      (secrets : Assoc Text) (n : Text)
      → resolve_all resolve ctx refs names [] ≡ ok secrets
      → IsResolved resolve ctx (lookup n refs) (lookup n secrets)
  unfolding lookup
  resolve_all-IsResolved secrets n e = elim (Option-cases (lookup n refs)) [
    | inl q ↦ rw q (resolve_all_rest names [] secrets n e (mem-names n ∙ any-keys n refs q))
    | inr (ref, q) ↦
        let given =
          resolve_all_given names [] secrets n e (mem-names n ∙ any-keys-some n refs ref q) in
        rw q (
          given.0,
          subst (λ (o : Option Text). resolve ctx (elim o [ none ↦ [] | some r ↦ r ]) ≡ ok given.0)
              q given.1,
          given.2,
        )
  ]

-- A prepared definition is the registered one, with for each of its secret references, and for no
-- other name, what the resolver returned.
pub prepare-IsResolved :
    (ctx : Context) (id : Text) (m : Manager) (r : ResolvedDefinition)
    → prepare ctx id m ≡ ok r
    → (d : Definition) × (find id m ≡ ok d)
      × (r.id ≡ d.id)
      × (r.kind ≡ d.kind)
      × (r.settings ≡ d.settings)
      × ((n : Text)
          → IsResolved m.resolver (later ctx) (lookup n d.secret_refs) (lookup n r.secrets))
unfolding prepare
prepare-IsResolved ctx id m r e = elim (Result-cases (prepare_context ctx)) [
  | inr (x, q) ↦ absurd (ground arith)
  | inl (u, q) ↦ elim (Result-cases (find id m)) [
    | inr (x, f) ↦ absurd (ground arith)
    | inl (d, f) ↦
        elim (Result-cases (
          resolve_all m.resolver (later ctx) d.secret_refs
            (names m.resolver (later ctx) d.secret_refs) [])) [
              | inr (x, g) ↦ absurd (ground arith)
              | inl (s, g) ↦
                  let h : r.secrets ≡ s = ground arith in
                  (
                    d,
                    f,
                    ground arith,
                    ground arith,
                    ground arith,
                    λ n. rw h (resolve_all-IsResolved m.resolver (later ctx) d.secret_refs s n g),
                  )
            ]
  ]
]

prepare_context_unavailable :
    (ctx : Context) (e : Fault) → prepare_context ctx ≡ err e → is e connection_unavailable ≡ true
unfolding is
prepare_context_unavailable nil_context e h = ground arith
prepare_context_unavailable (context f) e h = ground arith

resolve_all_unavailable :
    (resolve : Resolver) (ctx : Context) (refs : Assoc Text) (ns : List Text) (done : Assoc Text)
    (e : Fault)
    → resolve_all resolve ctx refs ns done ≡ err e
    → is e connection_unavailable ≡ true
unfolding resolve_all is
resolve_all_unavailable resolve ctx refs [] done e h = cc
resolve_all_unavailable resolve ctx refs (n ∷ ns) done e h =
    elim (Result-cases (resolve ctx (ref_of refs n))) [
      | inl (v, q) ↦ ground (arith, resolve_all_unavailable resolve ctx refs ns (insert n v done) e)
      | inr (f, q) ↦ ground arith
    ]

-- Whatever error `prepare` returns, it is `ErrDatabaseUnavailable`.
pub prepare_unavailable :
    (ctx : Context) (id : Text) (m : Manager) (e : Fault)
    → prepare ctx id m ≡ err e
    → is e connection_unavailable ≡ true
unfolding prepare is
prepare_unavailable ctx id m e h = elim (Result-cases (find id m)) [
  | inr (x, f) ↦ ground (arith, prepare_context_unavailable ctx e)
  | inl (d, f) ↦ ground (
    arith,
    prepare_context_unavailable ctx e,
    resolve_all_unavailable m.resolver (later ctx) d.secret_refs
        (names m.resolver (later ctx) d.secret_refs) [] e,
  )
]
