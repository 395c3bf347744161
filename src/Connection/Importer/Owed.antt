-- ===== src/Connection/Importer/Owed.antt =====
-- The secrets that an import of internal/connection/importer.go has stored and not deleted since, and
-- the names that have no reference yet.
use dataporch.Prelude.{
  ◌≡◌, refl, Bool, true, false, not, ◌&&◌, ◌||◌, List, [], ◌∷◌, none, arith, any, All,
}
use dataporch.Text.{Text, same, same_iff, before_irrefl, before}
use dataporch.Assoc.{Assoc, lookup, insert, keys, values, Distinct, lookup-insert}
use dataporch.Sort.{Ascending, DistinctBy}
use dataporch.Connection.Importer.{Event, stored, deleted, warned, saved, registered, delete_new}

-- A secret that was stored and whose deletion has not been asked for since.
unfoldable pub owed : Text → List Event → Bool
owed r [] = false
owed r (stored x ∷ log) = same x r || owed r log
owed r (deleted x ∷ log) = not (same x r) && owed r log
owed r (warned x ∷ log) = owed r log
owed r (saved d ∷ log) = owed r log
owed r (registered d ∷ log) = owed r log

-- A definition was saved.
unfoldable pub is_saved : List Event → Bool
is_saved [] = false
is_saved (saved d ∷ log) = true
is_saved (stored x ∷ log) = is_saved log
is_saved (deleted x ∷ log) = is_saved log
is_saved (warned x ∷ log) = is_saved log
is_saved (registered d ∷ log) = is_saved log

abbrev pub mem : Text → List Text → Bool
mem r = any (λ x. same x r)

pub owed-delete_new :
    (r : Text) (refs : List Text) (log : List Event)
    → owed r (delete_new refs log) ≡ (owed r log && not (mem r refs))
unfolding delete_new owed
owed-delete_new r [] log = ground arith
owed-delete_new r (x ∷ refs) log = ground (arith, owed-delete_new r refs (deleted x ∷ log))

pub mem-insert :
    (r k v : Text) (m : Assoc Text)
    → lookup k m ≡ none
    → mem r (values (insert k v m)) ≡ (mem r (values m) || same v r)
unfolding insert lookup
mem-insert r k v [] h = ground arith
mem-insert r k v ((j, w) ∷ m) h = ground (arith, mem-insert r k v m)

-- The names that are left have no reference yet.
abbrev pub Unbound : Assoc Text → List Text → Type 0
Unbound refs = All (λ n. lookup n refs ≡ none)

pub Unbound-insert :
    (k v : Text) (refs : Assoc Text) (names : List Text)
    → All (λ n. same k n ≡ false) names
    → Unbound refs names
    → Unbound (insert k v refs) names
Unbound-insert k v refs [] d h = tt
Unbound-insert k v refs (n ∷ names) d h =
    ground (arith, lookup-insert k n v refs, Unbound-insert k v refs names d.1 h.1)

keys-Apart : (k : Text) (m : Assoc Text) → lookup k m ≡ none → All (λ n. same k n ≡ false) (keys m)
unfolding lookup
keys-Apart k [] h = tt
keys-Apart k ((j, v) ∷ m) h = ground (arith, keys-Apart k m, same_iff j k, same_iff k j)

pub keys-DistinctBy : (m : Assoc Text) → Distinct m → DistinctBy (λ n. n) (keys m)
keys-DistinctBy [] h = tt
keys-DistinctBy ((k, v) ∷ m) h = (keys-Apart k m h.0, keys-DistinctBy m h.1)

before-same : (a b : Text) → before a b ≡ true → same a b ≡ false
before-same a b h = ground (arith, same_iff a b, before_irrefl a)

before-Apart :
    (a : Text) (xs : List Text) → All (λ y. before a y ≡ true) xs → All (λ y. same a y ≡ false) xs
before-Apart a [] h = tt
before-Apart a (x ∷ xs) h = (before-same a x h.0, before-Apart a xs h.1)

pub Ascending-DistinctBy : (xs : List Text) → Ascending (λ n. n) xs → DistinctBy (λ n. n) xs
Ascending-DistinctBy [] h = tt
Ascending-DistinctBy (x ∷ xs) h = (before-Apart x xs h.0, Ascending-DistinctBy xs h.1)

pub Unbound-empty : (names : List Text) → Unbound [] names
unfolding lookup
Unbound-empty [] = tt
Unbound-empty (n ∷ names) = (refl, Unbound-empty names)
