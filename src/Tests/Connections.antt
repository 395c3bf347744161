-- ===== src/Tests/Connections.antt =====
-- Secret references, definitions and a manager of two definitions.
use dataporch.Prelude.{◌≡◌, refl, true, false, ◌||◌, not, [], ◌∷◌, ◌++◌, some, if◌then◌else◌}
use dataporch.Text.{Text, bytes, same, contains_byte, cut}
use dataporch.Text.Utf8.{runes, is_blank, is_space, is_control, valid_string}
use dataporch.Fault.{
  ok, err, is, sentinel, database_not_found, wraps, secret_not_found, connection_unavailable,
  background, later, Fault,
}
use dataporch.Assoc.{lookup, insert}
use dataporch.Sort.{sort}
use dataporch.Secret.Reference.{
  parse, parts, is_valid_scheme, is_valid_locator, is_scheme_character,
}
use dataporch.Secret.Reference.Laws.{parts-parse}
use dataporch.Connection.Definition.{
  Definition, ResolvedDefinition, invalid, is_ascii_letter, is_ascii_digit, is_valid_id,
  is_valid_id_character, is_valid_field_character, is_valid_field_name, validate_id,
  validate_settings, validate_ref, validate_refs, validate,
}
use dataporch.Connection.Manager.{
  Manager, Resolver, manage, new_manager, register, find, resolve_all, prepare,
}
use dataporch.Connection.Manager.Laws.{IsManaged, new_manager-IsManaged, register-IsManaged}
use dataporch.Connection.Manager.Prepare.{IsResolved, prepare-IsResolved}

abbrev vault : Text
vault = bytes "vault://db/main"

vault_parses : parse vault ≡ ok vault
unfolding parse cut is_valid_scheme is_valid_locator runes is_scheme_character is_space is_control
    valid_string
vault_parses = refl

parts-parse_example :
    (scheme : Text) × (locator : Text) × (parts vault ≡ ok (scheme, locator))
    × (vault ≡ scheme ++ (bytes "://" ++ locator))
    × (is_valid_scheme scheme ≡ true)
    × (is_valid_locator locator ≡ true)
parts-parse_example = parts-parse vault vault vault_parses

no_slash : contains_byte b'/' (bytes "db") ≡ false
unfolding contains_byte
no_slash = refl

a_locator : is_valid_locator (bytes "db") ≡ true
unfolding is_valid_locator runes is_space is_control valid_string
a_locator = refl

a_slash : (contains_byte b'/' (bytes "a/b") || not (is_valid_locator (bytes "a/b"))) ≡ true
unfolding contains_byte
a_slash = refl

abbrev pub sales : Definition
sales = record {
  id = bytes "sales";
  kind = bytes "postgres";
  settings = (bytes "host", bytes "h") ∷ [];
  secret_refs = (bytes "password", vault) ∷ [];
}

abbrev pub audit : Definition
audit = record {
  id = bytes "audit";
  kind = bytes "sqlite";
  settings = (bytes "path", bytes "p") ∷ [];
  secret_refs = [];
}

abbrev spaced : Definition
spaced = record { id = bytes "a b"; kind = bytes "sqlite"; settings = []; secret_refs = [] }

pub sales_valid : validate sales ≡ ok tt
unfolding validate validate_id is_valid_id is_valid_id_character is_ascii_letter is_ascii_digit
    is_blank validate_settings validate_refs validate_ref is_valid_field_name
    is_valid_field_character parse cut is_valid_scheme is_valid_locator runes is_scheme_character
    is_space is_control valid_string lookup same
sales_valid = refl

pub audit_valid : validate audit ≡ ok tt
unfolding validate validate_id is_valid_id is_valid_id_character is_ascii_letter is_ascii_digit
    is_blank validate_settings validate_refs is_valid_field_name is_valid_field_character runes
    is_space
audit_valid = refl

spaced_refused : validate spaced ≡ err invalid
unfolding validate validate_id is_valid_id is_valid_id_character is_ascii_letter is_ascii_digit
    runes
spaced_refused = refl

-- A resolver that knows one secret.
abbrev keeper : Resolver
keeper ctx ref = if same ref vault then ok (bytes "hush") else err (wraps secret_not_found)

abbrev pub manager : Manager
manager = record {
  resolver = keeper;
  definitions = (bytes "sales", sales) ∷ (bytes "audit", audit) ∷ [];
}

made : new_manager (some keeper) (sales ∷ audit ∷ []) ≡ ok manager
unfolding new_manager manage lookup insert same
made = rw (sales_valid, audit_valid)

manager-IsManaged : IsManaged manager.definitions
manager-IsManaged = new_manager-IsManaged (some keeper) (sales ∷ audit ∷ []) manager made

abbrev moved : Definition
moved = record audit { settings = (bytes "path", bytes "q") ∷ [] }

abbrev after : Manager
after = record manager { definitions = (bytes "sales", sales) ∷ (bytes "audit", moved) ∷ [] }

moved_valid : validate moved ≡ ok tt
unfolding validate validate_id is_valid_id is_valid_id_character is_ascii_letter is_ascii_digit
    is_blank validate_settings validate_refs is_valid_field_name is_valid_field_character runes
    is_space
moved_valid = refl

registered : register moved manager ≡ ok (after, some audit)
unfolding register lookup insert same
registered = rw moved_valid

register-IsManaged_example : IsManaged after.definitions
register-IsManaged_example =
    register-IsManaged moved manager after (some audit) manager-IsManaged registered

abbrev resolved : ResolvedDefinition
resolved = record {
  id = bytes "sales";
  kind = bytes "postgres";
  settings = (bytes "host", bytes "h") ∷ [];
  secrets = (bytes "password", bytes "hush") ∷ [];
}

prepared : prepare background (bytes "sales") manager ≡ ok resolved
unfolding prepare find resolve_all lookup insert same sort
prepared = refl

prepare-IsResolved_example :
    (d : Definition) × (find (bytes "sales") manager ≡ ok d)
    × (resolved.id ≡ d.id)
    × (resolved.kind ≡ d.kind)
    × (resolved.settings ≡ d.settings)
    × ((n : Text)
        → IsResolved keeper (later background) (lookup n d.secret_refs) (lookup n resolved.secrets))
prepare-IsResolved_example = prepare-IsResolved background (bytes "sales") manager resolved prepared

abbrev missing : Fault
missing = sentinel connection_unavailable ∷ wraps database_not_found

not_prepared : prepare background (bytes "none") manager ≡ err missing
unfolding prepare find lookup same is
not_prepared = refl
