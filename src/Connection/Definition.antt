-- ===== src/Connection/Definition.antt =====
-- internal/connection/definition.go. Maps are lists of entries, a nil map is empty, and the copies
-- that the source makes of maps and slices are the values themselves.
pub mod Laws
use dataporch.Prelude.{
  ℕ, ◌≡◌, Bool, true, false, ◌&&◌, ◌||◌, List, [], ◌∷◌, Option, none, some, if◌then◌else◌, leb, ltb,
  ◌==◌, all, length, not,
}
use dataporch.Text.{Text}
use dataporch.Text.Utf8.{runes, is_blank}
use dataporch.Fault.{
  Fault, Checked, ok, err, wraps, invalid_definition, ◌>>=◌, ◌>>◌, require, or_else,
}
use dataporch.Assoc.{Assoc, lookup}
use dataporch.Secret.Reference.{parse}

pub record Definition : Type 0 where
  pub id : Text
  pub kind : Text
  pub settings : Assoc Text
  pub secret_refs : Assoc Text

pub record ParsedConnection : Type 0 where
  pub settings : Assoc Text
  pub secrets : Assoc Text

pub record ResolvedDefinition : Type 0 where
  pub id : Text
  pub kind : Text
  pub settings : Assoc Text
  pub secrets : Assoc Text

abbrev pub max_id_length : ℕ
max_id_length = 128

unfoldable pub is_ascii_letter : ℕ → Bool
is_ascii_letter c = leb b'a' c && leb c b'z' || leb b'A' c && leb c b'Z'

unfoldable pub is_ascii_digit : ℕ → Bool
is_ascii_digit c = leb b'0' c && leb c b'9'

unfoldable pub is_valid_id_character : ℕ → Bool
unfolding is_ascii_letter is_ascii_digit
is_valid_id_character c =
    c == b'.' || c == b'_' || c == b'-' || is_ascii_letter c || is_ascii_digit c

unfoldable pub is_valid_field_character : ℕ → Bool
unfolding is_ascii_letter is_ascii_digit
is_valid_field_character c = c == b'_' || c == b'-' || is_ascii_letter c || is_ascii_digit c

unfoldable pub is_valid_id : Text → Bool
is_valid_id id =
    if length id == 0 || ltb max_id_length (length id)
    then false
    else all is_valid_id_character (runes id)

unfoldable pub is_valid_field_name : Text → Bool
is_valid_field_name [] = false
is_valid_field_name (c ∷ rest) =
    if not (is_ascii_letter c) then false else all is_valid_field_character (runes rest)

abbrev pub invalid : Fault
invalid = wraps invalid_definition

-- `ID.Validate`.
unfoldable pub validate_id : Text → Checked
validate_id id = require (is_valid_id id) invalid

unfoldable pub validate_settings : Assoc Text → Checked
validate_settings [] = ok tt
validate_settings ((name, value) ∷ rest) = do
  require (is_valid_field_name name) invalid
  validate_settings rest

-- The checks of one secret reference.
unfoldable pub validate_ref : Assoc Text → Text → Text → Checked
validate_ref settings name ref = do
  require (is_valid_field_name name) invalid
  elim (lookup name settings) [ none ↦ ok tt | some v ↦ err invalid ]
  parsed ← or_else (parse ref) (λ e. invalid)
  ok tt

unfoldable pub validate_refs : Assoc Text → Assoc Text → Checked
validate_refs settings [] = ok tt
validate_refs settings ((name, ref) ∷ rest) = do
  validate_ref settings name ref
  validate_refs settings rest

-- `Definition.Validate`.
unfoldable pub validate : Definition → Checked
unfolding validate_id
validate d = do
  validate_id d.id
  require (not (is_blank d.kind)) invalid
  validate_settings d.settings
  validate_refs d.settings d.secret_refs
