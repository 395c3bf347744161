-- ===== src/Text/Words.antt =====
-- The words of a text: `strings.Fields` and `strings.Join` of package strings, and `strings.ReplaceAll`
-- of one byte by nothing.
use dataporch.Prelude.{
  ℕ, ◌≡◌, refl, Bool, true, false, List, [], ◌∷◌, ◌++◌, if◌then◌else◌, ◌==◌, ◌&&◌, All, ◌≢◌, inl,
  inr, Bool-cases, arith,
}
use dataporch.Text.Order.{Text, bytes}
use dataporch.Text.Utf8.{Chunk, chunks, is_space, IsApart, chunks-IsApart}

abbrev is_empty : Text → Bool
is_empty [] = true
is_empty (b ∷ t) = false

abbrev is_nothing : List Chunk → Bool
is_nothing [] = true
is_nothing (c ∷ rest) = false

-- `word` is what has been read of the current word.
unfoldable pub fields_from : Text → List Chunk → List Text
fields_from [] [] = []
fields_from (b ∷ word) [] = (b ∷ word) ∷ []
fields_from word (c ∷ rest) =
    let longer = fields_from (word ++ c.source) rest in
    let next = fields_from [] rest in
    if is_space c.rune then if is_empty word then next else word ∷ next else longer

unfoldable pub fields : Text → List Text
fields t = fields_from [] (chunks t)

unfoldable pub join : Text → List Text → Text
join separator [] = []
join separator (w ∷ []) = w
join separator (w ∷ v ∷ rest) = w ++ (separator ++ join separator (v ∷ rest))

-- `strings.ReplaceAll(text, string(b), "")` for a byte of ASCII.
unfoldable pub without : ℕ → Text → Text
without b [] = []
without b (x ∷ rest) = let kept = without b rest in if x == b then kept else x ∷ kept

-- `strings.TrimSpace`.
unfoldable pub trim_left : List Chunk → List Chunk
trim_left [] = []
trim_left (c ∷ rest) = let less = trim_left rest in if is_space c.rune then less else c ∷ rest

unfoldable pub trim_right : List Chunk → List Chunk
trim_right [] = []
trim_right (c ∷ rest) =
    let less = trim_right rest in if is_nothing less && is_space c.rune then [] else c ∷ less

unfoldable pub sources : List Chunk → Text
sources [] = []
sources (c ∷ rest) = c.source ++ sources rest

unfoldable pub trim_space : Text → Text
trim_space t = sources (trim_right (trim_left (chunks t)))

trimmed : trim_space (bytes " a b\n") ≡ bytes "a b"
unfolding trim_space sources trim_right trim_left chunks is_space
trimmed = refl

three_words : join (bytes " ") (fields (bytes "  no such\ttable ")) ≡ bytes "no such table"
unfolding join fields fields_from chunks is_space
three_words = refl

module _ (P : ℕ → Type 0) where
  pub All-append : (s t : Text) → All P s → All P t → All P (s ++ t)
  All-append [] t h k = k
  All-append (x ∷ s) t h k = (h.0, All-append s t h.1 k)

  pub All-join :
      (separator : Text) (words : List Text)
      → All P separator
      → All (All P) words
      → All P (join separator words)
  unfolding join
  All-join separator [] h k = tt
  All-join separator (w ∷ []) h k = k.0
  All-join separator (w ∷ v ∷ rest) h k =
      All-append w _ k.0 (All-append separator _ h (All-join separator (v ∷ rest) h k.1))

apart_source : (c : Chunk) → IsApart c → is_space c.rune ≡ false → All (λ b. b ≢ 32) c.source
unfolding is_space
apart_source c (inl e) h = absurd (ground (arith, e, h))
apart_source c (inr a) h = a

-- No word of a text holds a blank.
fields_from-apart :
    (word : Text) (cs : List Chunk)
    → All (λ b. b ≢ 32) word
    → All IsApart cs
    → All (All (λ b. b ≢ 32)) (fields_from word cs)
unfolding fields_from
fields_from-apart [] [] h k = tt
fields_from-apart (b ∷ word) [] h k = (h, tt)
fields_from-apart [] (c ∷ rest) h k = elim (Bool-cases (is_space c.rune)) [
  | inl q ↦ rw (q, fields_from) (fields_from-apart [] rest tt k.1)
  | inr q ↦ rw (q, fields_from) (fields_from-apart c.source rest (apart_source c k.0 q) k.1)
]
fields_from-apart (b ∷ word) (c ∷ rest) h k = elim (Bool-cases (is_space c.rune)) [
  | inl q ↦ rw (q, fields_from) (h, fields_from-apart [] rest tt k.1)
  | inr q ↦
      rw (q, fields_from)
        (fields_from-apart (b ∷ word ++ c.source) rest
          (All-append (λ x. x ≢ 32) (b ∷ word) c.source h (apart_source c k.0 q)) k.1)
]

pub fields-apart : (t : Text) → All (All (λ b. b ≢ 32)) (fields t)
unfolding fields
fields-apart t = fields_from-apart [] (chunks t) tt (chunks-IsApart t)
