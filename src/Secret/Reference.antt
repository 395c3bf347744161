-- ===== src/Secret/Reference.antt =====
-- internal/secret/reference.go. A `Reference` is its text.
pub mod Laws
use dataporch.Prelude.{
  ℕ, Bool, true, false, not, ◌&&◌, ◌||◌, List, [], ◌∷◌, ◌++◌, Option, none, some, if◌then◌else◌,
  leb, ◌==◌, all,
}
use dataporch.Text.{Text, bytes, cut, contains_byte}
use dataporch.Text.Utf8.{runes, valid_string, is_space, is_control}
use dataporch.Fault.{Result, ok, err, wraps, invalid_reference, ◌>>=◌, ◌>>◌, require, or_fail}

-- What may follow the first letter of a scheme.
unfoldable pub is_scheme_character : ℕ → Bool
is_scheme_character c = leb b'a' c && leb c b'z' || leb b'0' c && leb c b'9' || c == b'-'

unfoldable pub is_valid_scheme : Text → Bool
is_valid_scheme [] = false
is_valid_scheme (c ∷ rest) = leb b'a' c && leb c b'z' && all is_scheme_character (runes rest)

unfoldable pub is_valid_locator : Text → Bool
is_valid_locator [] = false
is_valid_locator (c ∷ rest) =
    valid_string (c ∷ rest) && all (λ r. not (is_space r || is_control r)) (runes (c ∷ rest))

unfoldable pub parse : Text → Result Text
parse raw = elim (cut raw) [
  | none ↦ err (wraps invalid_reference)
  | some (scheme, locator) ↦
      if is_valid_scheme scheme && is_valid_locator locator
      then ok raw
      else err (wraps invalid_reference)
]

unfoldable pub new_local : Text → Result Text
new_local identifier =
    if contains_byte b'/' identifier
    then err (wraps invalid_reference)
    else parse (bytes "local://" ++ identifier)

-- The scheme and the locator.
unfoldable pub parts : Text → Result (Text × Text)
parts r = do parsed ← parse r; or_fail (cut parsed) []
