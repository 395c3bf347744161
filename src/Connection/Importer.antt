-- ===== src/Connection/Importer.antt =====
-- internal/connection/importer.go. The collaborators answer from what has happened so far: an event
-- for each of their effects, the last one first. The wiping of buffers has no counterpart.
pub mod Owed
pub mod Laws
use dataporch.Prelude.{
  Bool, true, false, not, ◌&&◌, ◌||◌, List, [], ◌∷◌, Option, none, some, if◌then◌else◌,
}
use dataporch.Text.{Text, bytes}
use dataporch.Fault.{
  Fault, Checked, Result, ok, err, wraps, is, import_unavailable, invalid_connection_string,
  definition_not_found, ◌>>=◌, ◌>>◌, require, Context, nil_context, context, later,
}
use dataporch.Assoc.{Assoc, lookup, insert, keys, values}
use dataporch.Sort.{sort}
use dataporch.Connection.Definition.{Definition, ParsedConnection, validate}
use dataporch.Connection.Connector.{Adapter}

pub record ImportRequest : Type 0 where
  pub id : Text
  pub kind : Text
  pub connection_string : Text

pub record ImportResult : Type 0 where
  pub id : Text
  pub is_updated : Bool
  pub is_connection_tested : Bool

-- A secret was stored, its deletion was asked for, a definition was saved or registered, a warning
-- was given.
pub data Event : Type 0 where
  stored deleted warned : Text → Event
  saved registered : Definition → Event

-- `ImporterDependencies`, none of them nil.
pub record Importer : Type 0 where
  pub resolve : Text → Result Adapter
  pub store : List Event → Context → Text → Result Text
  pub delete : List Event → Context → Text → Checked
  pub lookup_definition : List Event → Context → Text → Result Definition
  pub upsert : List Event → Context → Definition → Checked
  pub register_definition : List Event → Definition → Checked

abbrev pub entry : Assoc Text → Text → Text
entry m name = elim (lookup name m) [ none ↦ [] | some v ↦ v ]

-- `deleteNew`, over the references in the order in which they are visited.
unfoldable pub delete_new : List Text → List Event → List Event
delete_new [] log = log
delete_new (ref ∷ refs) log = delete_new refs (deleted ref ∷ log)

-- `newDefinition` from the references on.
unfoldable pub define :
    ImportRequest
    → ParsedConnection
    → Result (Assoc Text)
    → List Event
    → Result Definition × List Event
define request parsed (err e) log = (err e, log)
define request parsed (ok refs) log =
    let d : Definition = record {
      id = request.id;
      kind = request.kind;
      settings = parsed.settings;
      secret_refs = refs;
    } in
    elim (validate d) [
      | ok u ↦ (ok d, log)
      | err e ↦ (err (wraps invalid_connection_string), delete_new (values refs) log)
    ]

module _ (i : Importer) where
  -- `deleteOld`, which stops at the first failure.
  unfoldable pub delete_old : Context → Text → List Text → List Event → List Event
  delete_old ctx id [] log = log
  delete_old ctx id (ref ∷ refs) log =
      let rest = delete_old ctx id refs (deleted ref ∷ log) in
      elim (i.delete log ctx ref) [ ok u ↦ rest | err e ↦ warned id ∷ deleted ref ∷ log ]

  -- The loop of `storeSecrets` over the sorted names.
  unfoldable pub store_secrets :
      Context → Assoc Text → List Text → Assoc Text → List Event → Result (Assoc Text) × List Event
  store_secrets ctx secrets [] refs log = (ok refs, log)
  store_secrets ctx secrets (name ∷ names) refs log = elim (i.store log ctx (entry secrets name)) [
    | err e ↦ (err (wraps import_unavailable), delete_new (values refs) log)
    | ok ref ↦ store_secrets ctx secrets names (insert name ref refs) (stored ref ∷ log)
  ]

  unfoldable pub new_definition :
      Context → ImportRequest → ParsedConnection → List Event → Result Definition × List Event
  new_definition ctx request parsed log =
      let done = store_secrets ctx parsed.secrets (sort (λ n. n) (keys parsed.secrets)) [] log in
      define request parsed done.0 done.1

  unfoldable pub existing_definition : Context → Text → List Event → Result (Option Definition)
  existing_definition ctx id log = elim (i.lookup_definition log ctx id) [
    | ok d ↦ ok (some d)
    | err e ↦ if is e definition_not_found then ok none else err (wraps import_unavailable)
  ]

  -- The names of the secrets, each with a reference that is valid.
  unfoldable pub placeholders : Assoc Text → Assoc Text
  placeholders [] = []
  placeholders ((name, value) ∷ rest) = (name, bytes "local://validation") ∷ placeholders rest

  unfoldable pub validate_parsed : ImportRequest → ParsedConnection → Checked
  validate_parsed request parsed = validate (record {
    id = request.id;
    kind = request.kind;
    settings = parsed.settings;
    secret_refs = placeholders parsed.secrets;
  })

  -- `Import` before anything is stored.
  unfoldable pub parse_request : Context → ImportRequest → Result ParsedConnection
  parse_request ctx request = do
    elim ctx [
      | nil_context ↦ err (wraps import_unavailable)
      | context e ↦ elim (e 0) [ none ↦ ok tt | some s ↦ err (wraps import_unavailable) ]
    ]
    elim (validate
        (record { id = request.id; kind = request.kind; settings = []; secret_refs = [] })) [
          | ok u ↦ ok tt
          | err e ↦ err (wraps import_unavailable)
        ]
    adapter ← elim (i.resolve request.kind) [ ok a ↦ ok a | err e ↦ err (wraps import_unavailable) ]
    parsed ← elim (adapter.parse_connection_string request.connection_string) [
      | ok p ↦ ok p
      | err e ↦ err (wraps invalid_connection_string)
    ]
    elim (validate_parsed request parsed) [
      | ok u ↦ ok tt
      | err e ↦ err (wraps invalid_connection_string)
    ]
    ok parsed

  -- `Import` once the definition is saved.
  unfoldable pub enroll :
      Context
      → ImportRequest
      → Option Definition
      → Definition
      → List Event
      → Result ImportResult × List Event
  enroll ctx request previous d log = elim (i.register_definition log d) [
    | err e ↦ (err (wraps import_unavailable), log)
    | ok u ↦ elim previous [
      | none ↦ (
        ok (record { id = request.id; is_updated = false; is_connection_tested = false }),
        registered d ∷ log,
      )
      | some old ↦ (
        ok (record { id = request.id; is_updated = true; is_connection_tested = false }),
        delete_old ctx request.id (values old.secret_refs) (registered d ∷ log),
      )
    ]
  ]

  -- `Import` from the definition on.
  unfoldable pub save_definition :
      Context → ImportRequest → Definition → List Event → Result ImportResult × List Event
  save_definition ctx request d log = elim (existing_definition ctx request.id log) [
    | err e ↦ (err e, delete_new (values d.secret_refs) log)
    | ok previous ↦ elim (i.upsert log ctx d) [
      | err e ↦ (err (wraps import_unavailable), delete_new (values d.secret_refs) log)
      | ok u ↦ enroll ctx request previous d (saved d ∷ log)
    ]
  ]

  unfoldable pub save_new :
      Context → ImportRequest → Result Definition → List Event → Result ImportResult × List Event
  save_new ctx request (err e) log = (err e, log)
  save_new ctx request (ok d) log = save_definition ctx request d log

  -- `Import`.
  unfoldable pub import_connection :
      Context → ImportRequest → List Event → Result ImportResult × List Event
  import_connection ctx request log = elim (parse_request ctx request) [
    | err e ↦ (err e, log)
    | ok parsed ↦
        let made = new_definition (later ctx) request parsed log in
        save_new (later ctx) request made.0 made.1
  ]
