-- ===== src/Sort.antt =====
-- `sort.Slice` and `sort.Strings` by a key that no two items share: the result is then determined,
-- and an insertion sort gives it. `sort.Search` as package sort runs it.
use dataporch.Prelude.{
  ℕ, zero, suc, ◌+◌, ◌-◌, ◌/◌, ◌≤◌, ◌<◌, ◌≡◌, refl, Bool, true, false, any, ◌||◌, List, [], ◌∷◌,
  Option, none, some, if◌then◌else◌, arith, inl, inr, All, Bool-cases, ltb,
}
use mathlib.Core.List.{Perm}
use mathlib.Core.List.Perm
use dataporch.Text.{Text, same, before, before_trans, before_total, same_iff}

module _ {ℓ} {A : Type ℓ} (key : A → Text) where
  place : A → List A → List A
  place x [] = x ∷ []
  place x (y ∷ ys) = if before (key x) (key y) then x ∷ y ∷ ys else y ∷ place x ys

  unfoldable pub sort : List A → List A
  unfolding place
  sort [] = []
  sort (x ∷ xs) = place x (sort xs)

  -- No two items have one key.
  abbrev pub Apart : A → List A → Type 0
  Apart x = All (λ y. same (key x) (key y) ≡ false)

  abbrev pub DistinctBy : List A → Type 0
  DistinctBy [] = Unit
  DistinctBy (x ∷ xs) = Apart x xs × DistinctBy xs

  -- Every item has a key before those of the items that follow it.
  abbrev pub Ascending : List A → Type 0
  Ascending [] = Unit
  Ascending (x ∷ xs) = All (λ y. before (key x) (key y) ≡ true) xs × Ascending xs

module _ {ℓ} {A : Type ℓ} (key : A → Text) where
  All-place {κ} : (P : A → Type κ) (x : A) (ys : List A) → P x → All P ys → All P (place key x ys)
  unfolding place
  All-place P x [] p h = (p, tt)
  All-place P x (y ∷ ys) p h = ground (arith, All-place P x ys p h.1)

  pub All-sort {κ} : (P : A → Type κ) (xs : List A) → All P xs → All P (sort key xs)
  unfolding sort
  All-sort P [] h = tt
  All-sort P (x ∷ xs) h = All-place P x (sort key xs) h.0 (All-sort P xs h.1)

  place-perm : (x : A) (ys : List A) → Perm (place key x ys) (x ∷ ys)
  unfolding place
  place-perm x [] = Perm.refl (x ∷ [])
  place-perm x (y ∷ ys) = elim (Bool-cases (before (key x) (key y))) [
    | inl e ↦ rw e (Perm.refl (x ∷ y ∷ ys))
    | inr e ↦ rw e (Perm.trans (Perm.cons y (place-perm x ys)) (Perm.swap x y ys))
  ]

  -- Sorting loses nothing and adds nothing.
  pub sort-perm : (xs : List A) → Perm (sort key xs) xs
  unfolding sort
  sort-perm [] = Perm.refl []
  sort-perm (x ∷ xs) = Perm.trans (place-perm x (sort key xs)) (Perm.cons x (sort-perm xs))

  any-place : (p : A → Bool) (x : A) (ys : List A) → any p (place key x ys) ≡ (p x || any p ys)
  unfolding place
  any-place p x [] = refl
  any-place p x (y ∷ ys) = ground (arith, any-place p x ys)

  pub any-sort : (p : A → Bool) (xs : List A) → any p (sort key xs) ≡ any p xs
  unfolding sort
  any-sort p [] = refl
  any-sort p (x ∷ xs) = ground (arith, any-place p x (sort key xs), any-sort p xs)

  All-before_trans :
      (x y : A) (ys : List A)
      → before (key x) (key y) ≡ true
      → All (λ z. before (key y) (key z) ≡ true) ys
      → All (λ z. before (key x) (key z) ≡ true) ys
  All-before_trans x y [] h k = tt
  All-before_trans x y (z ∷ zs) h k =
      (before_trans (key x) (key y) (key z) h k.0, All-before_trans x y zs h k.1)

  place-Ascending :
      (x : A) (ys : List A) → Apart key x ys → Ascending key ys → Ascending key (place key x ys)
  unfolding place
  place-Ascending x [] d h = (tt, tt)
  place-Ascending x (y ∷ ys) d h = elim (Bool-cases (before (key x) (key y))) [
    | inl e ↦ rw e ((e, All-before_trans x y ys e h.0), h)
    | inr e ↦ rw e (
      All-place (λ z. before (key y) (key z) ≡ true) x ys (before_total (key x) (key y) e d.0) h.0,
      place-Ascending x ys d.1 h.1,
    )
  ]

  pub sort-Ascending : (xs : List A) → DistinctBy key xs → Ascending key (sort key xs)
  unfolding sort
  sort-Ascending [] d = tt
  sort-Ascending (x ∷ xs) d =
      place-Ascending x (sort key xs) (All-sort (λ y. same (key x) (key y) ≡ false) xs d.0)
        (sort-Ascending xs d.1)

module _ {ℓ} {A : Type ℓ} (key : A → Text) where
  -- The first item with a key.
  unfoldable pub first : Text → List A → Option A
  first k [] = none
  first k (x ∷ xs) = if same (key x) k then some x else first k xs

  first-place :
      (k : Text) (x : A) (ys : List A)
      → Apart key x ys
      → first k (place key x ys) ≡ first k (x ∷ ys)
  unfolding first place
  first-place k x [] d = refl
  first-place k x (y ∷ ys) d = ground (
    arith,
    first-place k x ys d.1,
    d.0,
    same_iff (key x) k,
    same_iff (key y) k,
    same_iff (key x) (key y),
  )

  -- Where no two items share a key, sorting does not change which item has it.
  pub first-sort : (k : Text) (xs : List A) → DistinctBy key xs → first k (sort key xs) ≡ first k xs
  unfolding first sort
  first-sort k [] d = refl
  first-sort k (x ∷ xs) d = ground (
    arith,
    first-place k x (sort key xs) (All-sort key (λ y. same (key x) (key y) ≡ false) xs d.0),
    first-sort k xs d.1,
  )

  place-DistinctBy :
      (x : A) (ys : List A) → Apart key x ys → DistinctBy key ys → DistinctBy key (place key x ys)
  unfolding place
  place-DistinctBy x [] d h = (tt, tt)
  place-DistinctBy x (y ∷ ys) d h = elim (Bool-cases (before (key x) (key y))) [
    | inl e ↦ rw e (d, h)
    | inr e ↦ rw e (
      All-place key (λ z. same (key y) (key z) ≡ false) x ys
          (ground (arith, d.0, same_iff (key x) (key y), same_iff (key y) (key x))) h.0,
      place-DistinctBy x ys d.1 h.1,
    )
  ]

  pub sort-DistinctBy : (xs : List A) → DistinctBy key xs → DistinctBy key (sort key xs)
  unfolding sort
  sort-DistinctBy [] d = tt
  sort-DistinctBy (x ∷ xs) d =
      place-DistinctBy x (sort key xs) (All-sort key (λ y. same (key x) (key y) ≡ false) xs d.0)
        (sort-DistinctBy xs d.1)

-- `sort.Search(n, f)`: the loop keeps f(i-1) false and f(j) true. A round halves what is left.
search_loop : ℕ → (ℕ → Bool) → ℕ → ℕ → ℕ
search_loop zero f i j = i
search_loop (suc fuel) f i j =
    let h : ℕ = (i + j) / 2 in
    let up = search_loop fuel f (h + 1) j in
    let down = search_loop fuel f i h in if ltb i j then (if f h then down else up) else i

unfoldable pub search_index : ℕ → (ℕ → Bool) → ℕ
unfolding search_loop
search_index n f = search_loop (suc n) f 0 n

not_before :
    {n : ℕ} (f : ℕ → Bool)
    → ((a b : ℕ) → a ≤ b → b < n → f a ≡ true → f b ≡ true)
    → {a b : ℕ} → a ≤ b
    → b < n
    → f b ≡ false
    → f a ≡ false
not_before f mono {a} {b} le lt miss = elim (Bool-cases (f a)) [
  | inl e ↦ cc (mono a b le lt e)
  | inr e ↦ e
]

-- With fuel above the width of the range the loop ends at a boundary of a monotone test: false
-- below it and true from it on.
search_loop_lem :
    (fuel : ℕ) (f : ℕ → Bool) (n i j : ℕ)
    → ((a b : ℕ) → a ≤ b → b < n → f a ≡ true → f b ≡ true)
    → j - i < fuel
    → i ≤ j
    → j ≤ n
    → ((a : ℕ) → a < i → f a ≡ false)
    → ((a : ℕ) → j ≤ a → a < n → f a ≡ true)
    → (search_loop fuel f i j ≤ n)
      × ((a : ℕ) → a < search_loop fuel f i j → f a ≡ false)
      × ((a : ℕ) → search_loop fuel f i j ≤ a → a < n → f a ≡ true)
unfolding search_loop
search_loop_lem zero f n i j mono lt le bound low high = absurd (omega arith)
search_loop_lem (suc fuel) f n i j mono lt le bound low high = elim (Bool-cases (ltb i j)) [
  | inl more ↦ elim (Bool-cases (f ((i + j) / 2))) [
    | inl hit ↦
        rw (more, hit)
          (search_loop_lem fuel f n i ((i + j) / 2) mono (ground arith) (ground arith)
            (ground arith) low (λ a h k. mono ((i + j) / 2) a h k hit))
    | inr miss ↦
        rw (more, miss)
          (search_loop_lem fuel f n ((i + j) / 2 + 1) j mono (ground arith) (ground arith) bound
            (λ a h. not_before f mono (ground arith) (ground arith) miss) high)
  ]
  | inr done ↦ rw done (omega arith, low, λ a h k. high a (ground arith) k)
]

pub search_index_lem :
    (n : ℕ) (f : ℕ → Bool)
    → ((a b : ℕ) → a ≤ b → b < n → f a ≡ true → f b ≡ true)
    → (search_index n f ≤ n)
      × ((a : ℕ) → a < search_index n f → f a ≡ false)
      × ((a : ℕ) → search_index n f ≤ a → a < n → f a ≡ true)
search_index_lem n f mono =
    unfold search_index in
    search_loop_lem (suc n) f n 0 n mono (omega arith) (omega arith) (omega arith)
      (λ a h. absurd (omega arith)) (λ a h k. absurd (omega arith))

search_third : search_index 5 (λ i. ltb 2 i) ≡ 3
unfolding search_index
search_third = refl
