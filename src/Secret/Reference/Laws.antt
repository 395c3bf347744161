-- ===== src/Secret/Reference/Laws.antt =====
-- The parts of a reference of internal/secret/reference.go.
use dataporch.Prelude.{
  ◌≡◌, true, false, not, [], ◌∷◌, ◌++◌, some, arith, Option-cases, inl, inr, ◌||◌,
}
use dataporch.Text.{Text, bytes, cut, contains_byte}
use dataporch.Text.Utf8.{runes}
use dataporch.Fault.{ok, err, wraps, invalid_reference}
use dataporch.Secret.Reference.{
  parse, parts, new_local, is_valid_scheme, is_valid_locator, is_scheme_character,
}

-- The two sides of a cut, with "://" between them, are the text.
pub cut-eq : (t s l : Text) → cut t ≡ some (s, l) → t ≡ s ++ (bytes "://" ++ l)
unfolding cut
cut-eq [] s l h = cc
cut-eq (a ∷ []) s l h = cc
cut-eq (a ∷ b ∷ []) s l h = cc
cut-eq (a ∷ b ∷ c ∷ rest) s l h = elim (Option-cases (cut (b ∷ c ∷ rest))) [
  | inl e ↦ ground arith
  | inr ((s', l'), e) ↦ ground (arith, cut-eq (b ∷ c ∷ rest) s' l' e)
]

-- A reference that parses is its scheme, "://" and its locator, and `parts` gives back these two.
pub parts-parse :
    (raw r : Text)
    → parse raw ≡ ok r
    → (scheme : Text) × (locator : Text) × (parts r ≡ ok (scheme, locator))
      × (r ≡ scheme ++ (bytes "://" ++ locator))
      × (is_valid_scheme scheme ≡ true)
      × (is_valid_locator locator ≡ true)
unfolding parse parts
parts-parse raw r h = elim (Option-cases (cut raw)) [
  | inl e ↦ ground arith
  | inr ((s, l), e) ↦
      (s, l, ground (arith, e), ground (arith, cut-eq raw s l e), ground arith, ground arith)
]

-- Of an identifier with no slash that is a valid locator, `new_local` makes the reference whose parts
-- are the scheme "local" and that identifier.
pub parts-new_local :
    (id : Text)
    → contains_byte b'/' id ≡ false
    → is_valid_locator id ≡ true
    → (new_local id ≡ ok (bytes "local://" ++ id))
      × (parts (bytes "local://" ++ id) ≡ ok (bytes "local", id))
unfolding new_local parse parts cut is_valid_scheme runes is_scheme_character
parts-new_local id h k = ground arith

-- An identifier with a slash, or one that is no valid locator, is refused as an invalid reference.
pub new_local_refuses :
    (id : Text)
    → (contains_byte b'/' id || not (is_valid_locator id)) ≡ true
    → new_local id ≡ err (wraps invalid_reference)
unfolding new_local parse cut
new_local_refuses id h = ground arith
