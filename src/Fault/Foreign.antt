-- ===== src/Fault/Foreign.antt =====
-- Errors of packages outside the repository: none of them is an error value that it declares.
use dataporch.Prelude.{◌≡◌, refl, false, List, [], ◌∷◌, All, any, arith}
use dataporch.Fault.{Fault, Leaf, foreign, sentinel, failure, database, Sentinel, is, wraps}

abbrev IsOutside : Leaf → Type 0
IsOutside (foreign n) = Unit
IsOutside (sentinel s) = ⊥
IsOutside (failure f) = ⊥
IsOutside (database d) = ⊥

abbrev pub IsForeign : Fault → Type 0
IsForeign e = All IsOutside e

pub IsForeign-is : (e : Fault) (s : Sentinel) → IsForeign e → is e s ≡ false
unfolding is
IsForeign-is [] s h = refl
IsForeign-is (foreign n ∷ e) s h = ground (arith, IsForeign-is e s h.1)
IsForeign-is (sentinel t ∷ e) s h = absurd h.0
IsForeign-is (failure f ∷ e) s h = absurd h.0
IsForeign-is (database d ∷ e) s h = absurd h.0

pub is-cons : (s t : Sentinel) (e : Fault) → IsForeign e → is (sentinel s ∷ e) t ≡ is (wraps s) t
unfolding is
is-cons s t e h = ground (arith, IsForeign-is e t h)

-- It is none of a list of them.
pub IsForeign-any : (e : Fault) (l : List Sentinel) → IsForeign e → any (is e) l ≡ false
IsForeign-any e [] h = refl
IsForeign-any e (s ∷ l) h = ground (arith, IsForeign-is e s h, IsForeign-any e l h)
