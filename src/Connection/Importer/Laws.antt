-- ===== src/Connection/Importer/Laws.antt =====
-- What an import leaves behind in the store of secrets.
use dataporch.Prelude.{
  ◌≡◌, refl, ◌⊎◌, inl, inr, true, false, not, ◌&&◌, List, [], ◌∷◌, Option, none, some, arith, ◌∙◌,
}
use dataporch.Text.{Text}
use dataporch.Fault.{Result, ok, err, Result-cases, Context, later}
use dataporch.Assoc.{Assoc, insert, keys, values, Distinct}
use dataporch.Sort.{sort, sort-Ascending, DistinctBy}
use dataporch.Connection.Definition.{Definition, ParsedConnection, validate}
use dataporch.Connection.Importer.{
  Importer, ImportRequest, Event, stored, deleted, saved, registered, store_secrets, entry,
  new_definition, existing_definition, parse_request, enroll, save_definition, import_connection,
  define, delete_old, save_new,
}
use dataporch.Connection.Importer.Owed.{
  owed, is_saved, mem, owed-delete_new, mem-insert, Unbound, Unbound-insert, keys-DistinctBy,
  Ascending-DistinctBy, Unbound-empty,
}

module _ (i : Importer) (r : Text) where
  -- What is owed is among the references that the loop returns; if it fails, nothing is.
  abbrev Covered : Result (Assoc Text) × List Event → Type 0
  Covered (ok refs, log) = (owed r log && not (mem r (values refs))) ≡ false
  Covered (err e, log) = owed r log ≡ false

  abbrev CoveredBy : Result Definition × List Event → Type 0
  CoveredBy (ok d, log) = (owed r log && not (mem r (values d.secret_refs))) ≡ false
  CoveredBy (err e, log) = owed r log ≡ false

  store_secrets-Covered :
      (ctx : Context) (secrets : Assoc Text) (names : List Text) (refs : Assoc Text)
      (log : List Event)
      → DistinctBy (λ n. n) names
      → Unbound refs names
      → (owed r log && not (mem r (values refs))) ≡ false
      → Covered (store_secrets i ctx secrets names refs log)
  unfolding store_secrets owed
  store_secrets-Covered ctx secrets [] refs log d u h = h
  store_secrets-Covered ctx secrets (n ∷ names) refs log d u h =
      elim (Result-cases (i.store log ctx (entry secrets n))) [
        | inr (e, q) ↦ rw (q, store_secrets) (owed-delete_new r (values refs) log ∙ h)
        | inl (ref, q) ↦
            rw (q, store_secrets)
              (store_secrets-Covered ctx secrets names (insert n ref refs) (stored ref ∷ log) d.1
                (Unbound-insert n ref refs names d.0 u.1)
                (ground (arith, h, mem-insert r n ref refs u.0)))
      ]

  define-CoveredBy :
      (request : ImportRequest) (parsed : ParsedConnection) (refs : Result (Assoc Text))
      (log : List Event)
      → Covered (refs, log)
      → CoveredBy (define request parsed refs log)
  unfolding define
  define-CoveredBy request parsed (err e) log h = h
  define-CoveredBy request parsed (ok refs) log h =
      elim (Result-cases (
        validate (record {
          id = request.id;
          kind = request.kind;
          settings = parsed.settings;
          secret_refs = refs;
        }))) [
          | inl (u, q) ↦ rw (q, define, CoveredBy) h
          | inr (e, q) ↦ rw (q, define, CoveredBy) (owed-delete_new r (values refs) log ∙ h)
        ]

  new_definition-CoveredBy :
      (ctx : Context) (request : ImportRequest) (parsed : ParsedConnection)
      → Distinct parsed.secrets
      → CoveredBy (new_definition i ctx request parsed [])
  unfolding new_definition owed
  new_definition-CoveredBy ctx request parsed d =
      let names = sort (λ n. n) (keys parsed.secrets) in
      let done = store_secrets i ctx parsed.secrets names [] [] in
      define-CoveredBy request parsed done.0 done.1 (
        store_secrets-Covered ctx parsed.secrets names [] []
          (Ascending-DistinctBy names
            (sort-Ascending (λ n. n) (keys parsed.secrets) (keys-DistinctBy parsed.secrets d)))
          (Unbound-empty names) refl)

  -- Nothing is owed, or a definition was saved.
  abbrev IsSettled : List Event → Type 0
  IsSettled log = (owed r log ≡ false) ⊎ (is_saved log ≡ true)

  delete_old_saved :
      (ctx : Context) (id : Text) (refs : List Text) (log : List Event)
      → is_saved log ≡ true
      → is_saved (delete_old i ctx id refs log) ≡ true
  unfolding delete_old is_saved
  delete_old_saved ctx id [] log h = h
  delete_old_saved ctx id (x ∷ refs) log h =
      ground (arith, delete_old_saved ctx id refs (deleted x ∷ log) h)

  enroll_saved :
      (ctx : Context) (request : ImportRequest) (previous : Option Definition) (d : Definition)
      (log : List Event)
      → is_saved log ≡ true
      → is_saved (enroll i ctx request previous d log).1 ≡ true
  unfolding enroll is_saved
  enroll_saved ctx request none d log h = ground arith
  enroll_saved ctx request (some old) d log h =
      ground (arith, delete_old_saved ctx request.id (values old.secret_refs) (registered d ∷ log))

  save_new-IsSettled :
      (ctx : Context) (request : ImportRequest) (made : Result Definition) (log : List Event)
      → CoveredBy (made, log)
      → IsSettled (save_new i ctx request made log).1
  unfolding save_new save_definition
  save_new-IsSettled ctx request (err e) log h = inl h
  save_new-IsSettled ctx request (ok d) log h =
      elim (Result-cases (existing_definition i ctx request.id log)) [
        | inr (e, q) ↦
            rw (q, save_definition) (inl (owed-delete_new r (values d.secret_refs) log ∙ h))
        | inl (previous, q) ↦ elim (Result-cases (i.upsert log ctx d)) [
          | inr (e, k) ↦
              rw (q, save_definition)
                (rw (k, save_definition) (inl (owed-delete_new r (values d.secret_refs) log ∙ h)))
          | inl (u, k) ↦
              rw (q, save_definition)
                (rw (k, save_definition)
                  (inr (
                    enroll_saved ctx request previous d (saved d ∷ log) (unfold is_saved in refl))))
        ]
      ]

  -- Over adapters that parse to settings and secrets with each name once, an import leaves no secret
  -- behind that it stored: the deletion of each has been asked for, or the definition was saved.
  pub import_connection-IsSettled :
      (ctx : Context) (request : ImportRequest)
      → ((p : ParsedConnection) → parse_request i ctx request ≡ ok p → Distinct p.secrets)
      → IsSettled (import_connection i ctx request []).1
  unfolding import_connection owed
  import_connection-IsSettled ctx request d = elim (Result-cases (parse_request i ctx request)) [
    | inr (e, q) ↦ rw (q, import_connection) (inl refl)
    | inl (p, q) ↦
        let made = new_definition i (later ctx) request p [] in
        rw (q, import_connection)
          (save_new-IsSettled (later ctx) request made.0 made.1
            (new_definition-CoveredBy (later ctx) request p (d p q)))
  ]
