-- ===== src/Text/Order.antt =====
-- Texts as lists of bytes: equality and the bytewise order of Go's `==` and `<` on strings.
use Prim.Native.Char.{code}
use dataporch.Prelude.{
  ℕ, String, ◌≡◌, refl, ◌↔◌, Bool, true, false, ◌&&◌, ◌||◌, List, [], ◌∷◌, ltb, ◌==◌, arith,
  Bool-cases, inl, inr,
}

abbrev pub Text : Type 0
Text = List ℕ

-- The bytes of an ASCII literal.
abbrev pub bytes : String → Text
bytes String.[] = []
bytes (String.◌∷◌ c s) = code c ∷ bytes s

-- Go's `==` on strings.
unfoldable pub same : Text → Text → Bool
same [] [] = true
same (x ∷ xs) (y ∷ ys) = x == y && same xs ys
same _ _ = false

-- Go's `<` on strings.
unfoldable pub before : Text → Text → Bool
before [] [] = false
before [] (y ∷ ys) = true
before (x ∷ xs) [] = false
before (x ∷ xs) (y ∷ ys) = ltb x y || (x == y && before xs ys)

pub same→eq : (a b : Text) → same a b ≡ true → a ≡ b
unfolding same
same→eq [] [] h = refl
same→eq [] (y ∷ ys) h = ground arith
same→eq (x ∷ xs) [] h = ground arith
same→eq (x ∷ xs) (y ∷ ys) h = ground (arith, same→eq xs ys)

pub same_self : (a : Text) → same a a ≡ true
unfolding same
same_self [] = refl
same_self (x ∷ xs) = ground (arith, same_self xs)

pub same_iff : (a b : Text) → (same a b ≡ true) ↔ (a ≡ b)
same_iff a b = (same→eq a b, λ e. ground (arith, same_self a))

pub before_irrefl : (a : Text) → before a a ≡ false
unfolding before
before_irrefl [] = refl
before_irrefl (x ∷ xs) = ground (arith, before_irrefl xs)

pub before_trans : (a b c : Text) → before a b ≡ true → before b c ≡ true → before a c ≡ true
unfolding before
before_trans [] [] c h k = ground arith
before_trans [] (y ∷ ys) [] h k = ground arith
before_trans [] (y ∷ ys) (z ∷ zs) h k = refl
before_trans (x ∷ xs) [] c h k = ground arith
before_trans (x ∷ xs) (y ∷ ys) [] h k = ground arith
before_trans (x ∷ xs) (y ∷ ys) (z ∷ zs) h k = ground (arith, before_trans xs ys zs)

-- Two texts that are not the same are in order one way.
pub before_total : (a b : Text) → before a b ≡ false → same a b ≡ false → before b a ≡ true
unfolding before same
before_total [] [] h k = ground arith
before_total [] (y ∷ ys) h k = ground arith
before_total (x ∷ xs) [] h k = refl
before_total (x ∷ xs) (y ∷ ys) h k = ground (arith, before_total xs ys)

pub before_asym : (a b : Text) → before a b ≡ true → before b a ≡ false
before_asym a b h = elim (Bool-cases (before b a)) [
  | inl k ↦ ground (arith, before_trans a b a h k, before_irrefl a)
  | inr k ↦ k
]
