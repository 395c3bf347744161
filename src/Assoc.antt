-- ===== src/Assoc.antt =====
-- Go maps with string keys: a list of entries in the order in which `range` visits them. Theorems
-- hold for every such list, so for every order that the runtime chooses.
use dataporch.Prelude.{
  ◌≡◌, refl, true, false, List, [], ◌∷◌, Option, none, some, if◌then◌else◌, arith, subst, any,
  Bool-cases, inl, inr,
}
use dataporch.Text.{Text, same, same_iff}

abbrev pub Assoc {ℓ} : Type ℓ → Type ℓ
Assoc V = List (Text × V)

module _ {ℓ} {V : Type ℓ} where
  -- `m[k]`, with whether it is there.
  unfoldable pub lookup : Text → Assoc V → Option V
  lookup k [] = none
  lookup k ((j, v) ∷ m) = if same j k then some v else lookup k m

  -- `m[k] = v`.
  unfoldable pub insert : Text → V → Assoc V → Assoc V
  insert k v [] = (k, v) ∷ []
  insert k v ((j, w) ∷ m) = if same j k then (k, v) ∷ m else (j, w) ∷ insert k v m

  -- `delete(m, k)`.
  unfoldable pub remove : Text → Assoc V → Assoc V
  remove k [] = []
  remove k ((j, w) ∷ m) = if same j k then m else (j, w) ∷ remove k m

  abbrev pub keys : Assoc V → List Text
  keys [] = []
  keys ((k, v) ∷ m) = k ∷ keys m

  abbrev pub values : Assoc V → List V
  values [] = []
  values ((k, v) ∷ m) = v ∷ values m

  -- No key stands twice: what makes a list of entries a map.
  abbrev pub Distinct : Assoc V → Type ℓ
  Distinct [] = Unit
  Distinct ((k, v) ∷ m) = (lookup k m ≡ none) × Distinct m

  pub any-keys : (n : Text) (m : Assoc V) → lookup n m ≡ none → any (λ k. same k n) (keys m) ≡ false
  unfolding lookup
  any-keys n [] h = refl
  any-keys n ((k, v) ∷ m) h = ground (arith, any-keys n m)

  pub any-keys-some :
      (n : Text) (m : Assoc V) (v : V) → lookup n m ≡ some v → any (λ k. same k n) (keys m) ≡ true
  unfolding lookup
  any-keys-some n [] v h = cc
  any-keys-some n ((k, w) ∷ m) v h = ground (arith, any-keys-some n m v)

  pub lookup-insert :
      (k j : Text) (v : V) (m : Assoc V)
      → lookup j (insert k v m) ≡ (if same k j then some v else lookup j m)
  unfolding lookup insert
  lookup-insert k j v [] = refl
  lookup-insert k j v ((i, w) ∷ m) =
      ground (arith, same_iff k j, same_iff i k, same_iff i j, lookup-insert k j v m)

  pub lookup-remove :
      (k j : Text) (m : Assoc V)
      → Distinct m
      → lookup j (remove k m) ≡ (if same k j then none else lookup j m)
  unfolding lookup remove
  lookup-remove k j [] d = ground arith
  lookup-remove k j ((i, w) ∷ m) d =
      ground (arith, same_iff k j, same_iff i k, same_iff i j, lookup-remove k j m d.1)

  pub insert-Distinct : (k : Text) (v : V) (m : Assoc V) → Distinct m → Distinct (insert k v m)
  unfolding insert
  insert-Distinct k v [] d = (unfold lookup in refl, tt)
  insert-Distinct k v ((i, w) ∷ m) d =
      ground (arith, same_iff i k, same_iff k i, lookup-insert k i v m, insert-Distinct k v m d.1)

  pub remove-Distinct : (k : Text) (m : Assoc V) → Distinct m → Distinct (remove k m)
  unfolding remove
  remove-Distinct k [] d = tt
  remove-Distinct k ((i, w) ∷ m) d =
      ground (arith, lookup-remove k i m d.1, remove-Distinct k m d.1)

  -- A predicate holds of every entry.
  abbrev pub Each {κ} : (Text → V → Type κ) → Assoc V → Type κ
  Each P [] = Unit
  Each P ((k, v) ∷ m) = P k v × Each P m

  pub Each-insert {κ} :
      (P : Text → V → Type κ) (k : Text) (v : V) (m : Assoc V)
      → P k v
      → Each P m
      → Each P (insert k v m)
  unfolding insert
  Each-insert P k v [] p h = (p, tt)
  Each-insert P k v ((i, w) ∷ m) p h = ground (arith, Each-insert P k v m p h.1)

  pub Each-remove {κ} :
      (P : Text → V → Type κ) (k : Text) (m : Assoc V) → Each P m → Each P (remove k m)
  unfolding remove
  Each-remove P k [] h = tt
  Each-remove P k ((i, w) ∷ m) h = ground (arith, Each-remove P k m h.1)

  pub Each-lookup {κ} :
      (P : Text → V → Type κ) (k : Text) {v : V} (m : Assoc V)
      → Each P m
      → lookup k m ≡ some v
      → P k v
  unfolding lookup
  Each-lookup P k [] h e = cc
  Each-lookup P k {v} ((i, w) ∷ m) h e = elim (Bool-cases (same i k)) [
    | inl hit ↦ subst (λ x. P x v) ((same_iff i k).0 hit) (subst (λ x. P i x) (ground arith) h.0)
    | inr miss ↦ Each-lookup P k m h.1 (ground arith)
  ]
