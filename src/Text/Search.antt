-- ===== src/Text/Search.antt =====
-- The searches of package strings: `HasPrefix`, `Contains`, `Cut` at "://", `ContainsRune` of '/'.
use dataporch.Prelude.{
  ℕ, ◌≡◌, refl, Bool, true, false, ◌&&◌, ◌||◌, [], ◌∷◌, Option, none, some, if◌then◌else◌, ◌==◌,
}
use dataporch.Text.Order.{Text, bytes}

unfoldable pub has_prefix : Text → Text → Bool
has_prefix t [] = true
has_prefix [] (p ∷ ps) = false
has_prefix (x ∷ xs) (p ∷ ps) = x == p && has_prefix xs ps

unfoldable pub contains : Text → Text → Bool
unfolding has_prefix
contains [] p = has_prefix [] p
contains (x ∷ xs) p = has_prefix (x ∷ xs) p || contains xs p

-- `strings.Cut(text, "://")`: what stands before and after the first "://".
unfoldable pub cut : Text → Option (Text × Text)
cut (a ∷ b ∷ c ∷ rest) =
    if a == 58 && b == 47 && c == 47
    then some ([], rest)
    else elim (cut (b ∷ c ∷ rest)) [ none ↦ none | some (s, l) ↦ some (a ∷ s, l) ]
cut _ = none

unfoldable pub contains_byte : ℕ → Text → Bool
contains_byte c [] = false
contains_byte c (x ∷ xs) = x == c || contains_byte c xs

cut_local : cut (bytes "local://id") ≡ some (bytes "local", bytes "id")
unfolding cut
cut_local = refl
