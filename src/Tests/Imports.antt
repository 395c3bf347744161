-- ===== src/Tests/Imports.antt =====
-- An import of two secrets, the second of which cannot be stored.
use dataporch.Prelude.{
  ◌≡◌, refl, ◌⊎◌, true, false, [], ◌∷◌, if◌then◌else◌, arith, length, ◌==◌, subst,
}
use dataporch.Text.{bytes, same, cut, before}
use dataporch.Text.Utf8.{runes, is_blank, is_space, is_control, valid_string}
use dataporch.Fault.{
  ok, err, wraps, definition_not_found, secret_not_found, import_unavailable, background,
}
use dataporch.Assoc.{lookup, insert, Distinct}
use dataporch.Sort.{sort}
use dataporch.Connection.Definition.{
  ParsedConnection, validate, validate_id, is_valid_id, is_valid_id_character, is_ascii_letter,
  is_ascii_digit, validate_settings, validate_refs, validate_ref, is_valid_field_name,
  is_valid_field_character,
}
use dataporch.Secret.Reference.{parse, is_valid_scheme, is_valid_locator, is_scheme_character}
use dataporch.Connection.Connector.{Adapter}
use dataporch.Connection.Importer.{
  Importer, ImportRequest, stored, deleted, parse_request, import_connection, store_secrets,
  new_definition, define, save_new, delete_new, validate_parsed, placeholders,
}
use dataporch.Connection.Importer.Owed.{owed, is_saved}
use dataporch.Connection.Importer.Laws.{import_connection-IsSettled}

abbrev parsed : ParsedConnection
parsed = record {
  settings = [];
  secrets = (bytes "password", bytes "hush") ∷ (bytes "cert", bytes "pem") ∷ [];
}

abbrev adapter : Adapter
adapter = record { kind = bytes "postgres"; parse_connection_string = λ t. ok parsed }

-- It stores one secret, and no other.
abbrev importer : Importer
importer = record {
  resolve = λ kind. ok adapter;
  store = λ log ctx value.
      if length log == 0 then ok (bytes "local://one") else err (wraps secret_not_found);
  delete = λ log ctx ref. ok tt;
  lookup_definition = λ log ctx id. err (wraps definition_not_found);
  upsert = λ log ctx d. ok tt;
  register_definition = λ log d. ok tt;
}

abbrev request : ImportRequest
request = record { id = bytes "sales"; kind = bytes "postgres"; connection_string = bytes "x" }

parses : parse_request importer background request ≡ ok parsed
unfolding parse_request validate_parsed placeholders validate validate_id is_valid_id
    is_valid_id_character is_ascii_letter is_ascii_digit is_blank validate_settings validate_refs
    validate_ref is_valid_field_name is_valid_field_character parse cut is_valid_scheme
    is_valid_locator runes is_scheme_character is_space is_control valid_string lookup same
parses = refl

distinct :
    (p : ParsedConnection) → parse_request importer background request ≡ ok p → Distinct p.secrets
unfolding lookup same
distinct p h =
    let e : parsed ≡ p = ground (arith, parses, h) in
    subst (λ q. Distinct q.secrets) e (refl, (refl, tt))

-- What was stored is deleted again.
cleaned : import_connection importer background request [] ≡ (
  err (wraps import_unavailable),
  deleted (bytes "local://one") ∷ stored (bytes "local://one") ∷ [],
)
unfolding import_connection new_definition store_secrets define save_new delete_new sort insert
    before parse_request validate_parsed placeholders validate validate_id is_valid_id
    is_valid_id_character is_ascii_letter is_ascii_digit is_blank validate_settings validate_refs
    validate_ref is_valid_field_name is_valid_field_character parse cut is_valid_scheme
    is_valid_locator runes is_scheme_character is_space is_control valid_string lookup same
cleaned = refl

import_connection-IsSettled_example :
    (owed (bytes "local://one") (import_connection importer background request []).1 ≡ false)
    ⊎ (is_saved (import_connection importer background request []).1 ≡ true)
import_connection-IsSettled_example =
    import_connection-IsSettled importer (bytes "local://one") background request distinct
