-- ===== src/Connection/Manager/Laws.antt =====
-- What the registry of internal/connection/manager.go holds.
use mathlib.Core.List.{Perm}
use dataporch.Prelude.{
  ◌≡◌, refl, sym, subst, inl, inr, false, List, [], ◌∷◌, Option, none, some, if◌then◌else◌, arith,
  All,
}
use dataporch.Text.{Text, same, same_iff}
use dataporch.Fault.{ok, Result-cases}
use dataporch.Assoc.{
  Assoc, lookup, insert, values, Distinct, Each, lookup-insert, insert-Distinct, Each-insert,
}
use dataporch.Sort.{sort-perm, sort-Ascending, Ascending, DistinctBy}
use dataporch.Connection.Definition.{Definition, validate}
use dataporch.Connection.Manager.{Manager, Resolver, manage, new_manager, register, find, list}

-- What stands under an identifier has that identifier and is valid.
abbrev pub IsEntry : Text → Definition → Type 0
IsEntry id d = (d.id ≡ id) × (validate d ≡ ok tt)

pub record IsManaged (definitions : Assoc Definition) : Type 0 where
  pub distinct : Distinct definitions
  pub entries : Each IsEntry definitions

pub insert-IsManaged :
    (d : Definition) (m : Assoc Definition)
    → validate d ≡ ok tt
    → IsManaged m
    → IsManaged (insert d.id d m)
insert-IsManaged d m v h = record {
  distinct = insert-Distinct d.id d m h.distinct;
  entries = Each-insert IsEntry d.id d m (refl, v) h.entries;
}

manage-IsManaged :
    (m : Assoc Definition) (ds : List Definition) (r : Assoc Definition)
    → IsManaged m
    → manage m ds ≡ ok r
    → IsManaged r
unfolding manage
manage-IsManaged m [] r h e = ground arith
manage-IsManaged m (d ∷ ds) r h e =
    ground (arith, manage-IsManaged (insert d.id d m) ds r, insert-IsManaged d m)

-- A manager that `NewManager` makes has valid definitions under their own identifiers, each once.
pub new_manager-IsManaged :
    (resolver : Option Resolver) (ds : List Definition) (m : Manager)
    → new_manager resolver ds ≡ ok m
    → IsManaged m.definitions
unfolding new_manager
new_manager-IsManaged none ds m e = cc
new_manager-IsManaged (some f) ds m e = elim (Result-cases (manage [] ds)) [
  | inl (r, q) ↦ ground (arith, manage-IsManaged [] ds r (record { distinct = tt; entries = tt }) q)
  | inr (x, q) ↦ ground arith
]

-- Registration keeps every definition valid and under its own identifier, each once.
pub register-IsManaged :
    (d : Definition) (m m' : Manager) (previous : Option Definition)
    → IsManaged m.definitions
    → register d m ≡ ok (m', previous)
    → IsManaged m'.definitions
unfolding register
register-IsManaged d m m' previous h e = ground (arith, insert-IsManaged d m.definitions)

-- Registration reports what stood under the identifier; after it a lookup finds the new definition
-- under that identifier, and under any other what it found before.
pub find-register :
    (d : Definition) (m m' : Manager) (previous : Option Definition)
    → register d m ≡ ok (m', previous)
    → (previous ≡ lookup d.id m.definitions)
      × ((id : Text) → find id m' ≡ (if same d.id id then ok d else find id m))
unfolding register find
find-register d m m' previous e =
    (ground arith, λ id. ground (arith, lookup-insert d.id id d m.definitions))

values-Apart :
    (k : Text) (m : Assoc Definition)
    → lookup k m ≡ none
    → Each IsEntry m
    → All (λ y. same k y.id ≡ false) (values m)
unfolding lookup
values-Apart k [] e h = tt
values-Apart k ((j, d) ∷ m) e h = ground (arith, values-Apart k m, same_iff j k, same_iff k d.id)

pub values-DistinctBy : (m : Assoc Definition) → IsManaged m → DistinctBy (λ d. d.id) (values m)
values-DistinctBy [] h = tt
values-DistinctBy ((k, d) ∷ m) h = (
  subst (λ i. All (λ y. same i y.id ≡ false) (values m)) (sym h.entries.0.0)
      (values-Apart k m h.distinct.0 h.entries.1),
  values-DistinctBy m (record { distinct = h.distinct.1; entries = h.entries.1 }),
)

-- Where the definitions are valid and under their own identifiers, each once, `List` holds what is
-- registered, each once, in the order of the identifiers.
pub list-Ascending :
    (m : Manager)
    → IsManaged m.definitions
    → Ascending (λ d. d.id) (list m) × Perm (list m) (values m.definitions)
unfolding list
list-Ascending m h = (
  sort-Ascending (λ d. d.id) (values m.definitions) (values-DistinctBy m.definitions h),
  sort-perm (λ d. d.id) (values m.definitions),
)
