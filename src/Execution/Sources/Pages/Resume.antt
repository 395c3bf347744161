-- ===== src/Execution/Sources/Pages/Resume.antt =====
-- What follows a position in an ascending list, found by the binary search.
use dataporch.Prelude.{
  ℕ, zero, suc, ◌≤◌, ◌<◌, ◌≡◌, ◌≢◌, refl, sym, ap, ◌∙◌, true, false, List, [], ◌∷◌, ◌++◌, some,
  length, take, drop, arith, All,
}
use mathlib.Core.List.{append_assoc}
use dataporch.Text.{Text, before, before_trans, before_asym, before_irrefl}
use dataporch.Sort.{Ascending, search_index, search_index_lem}
use dataporch.Execution.Types.{DataSource}
use dataporch.Execution.Sources.{source_id, beyond, last_id, resume}

module _ (p : Text) where
  beyond-All :
      (xs : List DataSource) (i : ℕ)
      → All (λ y. before p y.id ≡ true) xs
      → i < length xs
      → beyond p xs i ≡ true
  unfolding beyond
  beyond-All [] i h k = absurd (omega arith)
  beyond-All (x ∷ xs) zero h k = h.0
  beyond-All (x ∷ xs) (suc i) h k = beyond-All xs i h.1 (omega arith)

  All-before :
      (x : DataSource) (xs : List DataSource)
      → before p x.id ≡ true
      → All (λ y. before x.id y.id ≡ true) xs
      → All (λ y. before p y.id ≡ true) xs
  All-before x [] h k = tt
  All-before x (y ∷ ys) h k = (before_trans p x.id y.id h k.0, All-before x ys h k.1)

  -- In an ascending list the test that the search makes is monotone.
  beyond_mono :
      (xs : List DataSource)
      → Ascending source_id xs
      → (a b : ℕ) → a ≤ b
      → b < length xs
      → beyond p xs a ≡ true
      → beyond p xs b ≡ true
  unfolding beyond
  beyond_mono [] asc a b le lt h = absurd (omega arith)
  beyond_mono (x ∷ xs) asc zero zero le lt h = h
  beyond_mono (x ∷ xs) asc zero (suc b) le lt h =
      beyond-All xs b (All-before x xs h asc.0) (omega arith)
  beyond_mono (x ∷ xs) asc (suc a) zero le lt h = absurd (omega arith)
  beyond_mono (x ∷ xs) asc (suc a) (suc b) le lt h =
      beyond_mono xs asc.1 a b (omega arith) (omega arith) h

-- `xs` is `front`, then one item with the identifier `p`, then `rest`.
pub record Split (p : Text) (front rest xs : List DataSource) : Type 0 where
  pub at : DataSource
  pub at_id : at.id ≡ p
  pub parts : xs ≡ front ++ at ∷ rest

All-at :
    (P : DataSource → Type 0) (front rest : List DataSource) (x : DataSource)
    → All P (front ++ x ∷ rest)
    → P x
All-at P [] rest x h = h.0
All-at P (y ∷ front) rest x h = All-at P front rest x h.1

-- A boundary of the test in such an ascending list stands after that item.
drop_boundary :
    (p : Text) (front rest : List DataSource) (x : DataSource) (k : ℕ)
    → x.id ≡ p
    → Ascending source_id (front ++ x ∷ rest)
    → ((a : ℕ) → a < k → beyond p (front ++ x ∷ rest) a ≡ false)
    → ((a : ℕ) → k ≤ a → a < length (front ++ x ∷ rest) → beyond p (front ++ x ∷ rest) a ≡ true)
    → drop k (front ++ x ∷ rest) ≡ rest
unfolding beyond
drop_boundary p [] rest x zero e asc low high =
    ground (arith, high 0 (omega arith) (omega arith), before_irrefl p)
drop_boundary p [] rest x (suc zero) e asc low high = refl
drop_boundary p [] [] x (suc (suc k)) e asc low high = refl
drop_boundary p [] (z ∷ rest) x (suc (suc k)) e asc low high = ground (arith, low 1 (omega arith))
drop_boundary p (y ∷ front) rest x zero e asc low high = ground (
  arith,
  high 0 (omega arith) (omega arith),
  All-at (λ z. before y.id z.id ≡ true) front rest x asc.0,
  before_asym y.id p,
)
drop_boundary p (y ∷ front) rest x (suc k) e asc low high =
    drop_boundary p front rest x k e asc.1 (λ a h. low (suc a) (omega arith))
      (λ a h l. high (suc a) (omega arith) (omega arith))

drop_found :
    (p : Text) (front rest : List DataSource) (x : DataSource)
    → x.id ≡ p
    → Ascending source_id (front ++ x ∷ rest)
    → drop
        (search_index (length (front ++ x ∷ rest)) (beyond p (front ++ x ∷ rest)))
        (front ++ x ∷ rest)
      ≡ rest
drop_found p front rest x e asc =
    let xs = front ++ x ∷ rest in
    let found = search_index_lem (length xs) (beyond p xs) (beyond_mono p xs asc) in
    drop_boundary p front rest x (search_index (length xs) (beyond p xs)) e asc found.1 found.2

pub resume_lem :
    (cursor p : Text) (front rest xs : List DataSource)
    → cursor ≢ []
    → Ascending source_id xs
    → Split p front rest xs
    → resume cursor p xs ≡ rest
unfolding resume
resume_lem [] p front rest xs h asc split = absurd (h refl)
resume_lem (b ∷ cursor) p front rest xs h asc split =
    rw split.parts (drop_found p front rest split.at split.at_id (rw split.parts at asc))

-- The identifier of the last item of a page is where the rest of the list starts.
pub last-Split :
    (n : ℕ) (xs : List DataSource)
    → 0 < n
    → n < length xs
    → (p : Text) × (front : List DataSource) × (last_id (take n xs) ≡ some p)
      × Split p front (drop n xs) xs
unfolding last_id
last-Split zero xs h k = absurd (omega arith)
last-Split (suc n) [] h k = absurd (omega arith)
last-Split (suc zero) (x ∷ xs) h k = (x.id, [], refl, record { at = x; at_id = refl; parts = refl })
last-Split (suc (suc n)) (x ∷ []) h k = absurd (omega arith)
last-Split (suc (suc n)) (x ∷ y ∷ xs) h k =
    let (p, front, last, split) = last-Split (suc n) (y ∷ xs) (omega arith) (omega arith) in
    (
      p,
      x ∷ front,
      last,
      record { at = split.at; at_id = split.at_id; parts = ap (◌∷◌ x) split.parts },
    )

pub Split-append :
    {p : Text} {inner rest xs whole : List DataSource} (front : List DataSource)
    → whole ≡ front ++ xs
    → Split p inner rest xs
    → Split p (front ++ inner) rest whole
Split-append front e split = record {
  at = split.at;
  at_id = split.at_id;
  parts = e ∙ ap (◌++◌ front) split.parts ∙ sym (append_assoc front _ _);
}

pub Split-All :
    {p : Text} {front rest xs : List DataSource} (P : DataSource → Type 0)
    (split : Split p front rest xs)
    → All P xs
    → P split.at
Split-All {front} {rest} P split h = All-at P front rest split.at (rw split.parts at h)
