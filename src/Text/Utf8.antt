-- ===== src/Text/Utf8.antt =====
-- UTF-8 as Go decodes it: `range` over a string, `utf8.ValidString`, and the classes of package
-- unicode that the program asks for.
use dataporch.Prelude.{
  ℕ, zero, suc, ◌+◌, ◌-◌, ◌*◌, ◌%◌, ◌≤◌, ◌<◌, ◌≡◌, refl, ap, ◌⊎◌, inl, inr, Bool-cases, Bool, true,
  false, not, ◌&&◌, ◌||◌, List, [], ◌∷◌, ◌++◌, ltb, leb, ◌==◌, if◌then◌else◌, all, All, arith, map,
  take, ◌≢◌,
}
use dataporch.Text.Order.{Text, bytes}

abbrev pub rune_error : ℕ
rune_error = 0xfffd

abbrev between : ℕ → ℕ → ℕ → Bool
between lo hi b = leb lo b && leb b hi

abbrev cont : ℕ → Bool
cont b = between 0x80 0xbf b

-- A decoded rune and its width. A fault has width 1 and decodes to `rune_error`.
abbrev fault : ℕ × ℕ
fault = (rune_error, 1)

two : ℕ → Text → ℕ × ℕ
two b (c ∷ rest) = if cont c then ((b % 32) * 64 + c % 64, 2) else fault
two b [] = fault

-- The second byte of a longer form lies in a range that depends on the first.
three : ℕ → ℕ → ℕ → Text → ℕ × ℕ
three lo hi b (c ∷ d ∷ rest) =
    if between lo hi c && cont d then ((b % 16) * 4096 + ((c % 64) * 64 + d % 64), 3) else fault
three lo hi b _ = fault

four : ℕ → ℕ → ℕ → Text → ℕ × ℕ
four lo hi b (c ∷ d ∷ e ∷ rest) =
    if between lo hi c && cont d && cont e
    then ((b % 8) * 262144 + ((c % 64) * 4096 + ((d % 64) * 64 + e % 64)), 4)
    else fault
four lo hi b _ = fault

-- `utf8.DecodeRune` at a byte and what follows it.
decode_rune : ℕ → Text → ℕ × ℕ
decode_rune b rest =
    if ltb b 0x80
    then (b, 1)
    else if between 0xc2 0xdf b
    then two b rest
    else if b == 0xe0
    then three 0xa0 0xbf b rest
    else if b == 0xed
    then three 0x80 0x9f b rest
    else if between 0xe1 0xef b
    then three 0x80 0xbf b rest
    else if b == 0xf0
    then four 0x90 0xbf b rest
    else if between 0xf1 0xf3 b
    then four 0x80 0xbf b rest
    else if b == 0xf4
    then four 0x80 0x8f b rest
    else fault

-- The runes of a text with their widths; `skip` bytes belong to the rune before.
decoded : ℕ → Text → List (ℕ × ℕ)
decoded skip [] = []
decoded zero (b ∷ rest) = let r = decode_rune b rest in r ∷ decoded (r.1 - 1) rest
decoded (suc skip) (b ∷ rest) = decoded skip rest

-- `for _, character := range text`.
unfoldable pub runes : Text → List ℕ
unfolding decoded decode_rune two three four
runes t = map (λ r. r.0) (decoded 0 t)

-- `utf8.ValidString`.
unfoldable pub valid_string : Text → Bool
unfolding decoded decode_rune two three four
valid_string t = all (λ r. not (r.0 == rune_error && r.1 == 1)) (decoded 0 t)

-- The runes of a text, each with the bytes that it was read from.
pub record Chunk : Type 0 where
  pub rune : ℕ
  pub source : Text

chunks_from : ℕ → Text → List Chunk
chunks_from skip [] = []
chunks_from zero (b ∷ rest) =
    let r = decode_rune b rest in
    record { rune = r.0; source = b ∷ take (r.1 - 1) rest } ∷ chunks_from (r.1 - 1) rest
chunks_from (suc skip) (b ∷ rest) = chunks_from skip rest

unfoldable pub chunks : Text → List Chunk
unfolding chunks_from decode_rune two three four
chunks t = chunks_from 0 t

-- Only the rune of a blank holds a blank.
abbrev pub IsApart : Chunk → Type 0
IsApart c = (c.rune ≡ 32) ⊎ All (λ b. b ≢ 32) c.source

decode_rune-apart :
    (b : ℕ) (rest : Text) → b ≢ 32 → All (λ x. x ≢ 32) (take ((decode_rune b rest).1 - 1) rest)
unfolding decode_rune two three four
decode_rune-apart b [] h = ground (arith, h)
decode_rune-apart b (c ∷ []) h = ground (arith, h)
decode_rune-apart b (c ∷ d ∷ []) h = ground (arith, h)
decode_rune-apart b (c ∷ d ∷ e ∷ rest) h = ground (arith, h)

chunks_from-IsApart : (skip : ℕ) (t : Text) → All IsApart (chunks_from skip t)
unfolding chunks_from
chunks_from-IsApart skip [] = tt
chunks_from-IsApart zero (b ∷ rest) = elim (Bool-cases (b == 32)) [
  | inl q ↦ (inl (unfold decode_rune in ground (arith, q)), chunks_from-IsApart _ rest)
  | inr q ↦
      let other : b ≢ 32 = ground (arith, q) in
      (inr (other, decode_rune-apart b rest other), chunks_from-IsApart _ rest)
]
chunks_from-IsApart (suc skip) (b ∷ rest) = chunks_from-IsApart skip rest

pub chunks-IsApart : (t : Text) → All IsApart (chunks t)
unfolding chunks
chunks-IsApart t = chunks_from-IsApart 0 t

-- A byte that starts no rune: it decodes to `rune_error` with width 1.
is_single : Text → Bool
is_single (b ∷ []) = true
is_single _ = false

unfoldable pub is_fault : Chunk → Bool
unfolding is_single
is_fault c = c.rune == rune_error && is_single c.source

-- `strings.ToValidUTF8`, whose flag says that the byte before was a fault too.
unfoldable pub replace_faults : Text → Bool → List Chunk → Text
replace_faults with after_fault [] = []
replace_faults with after_fault (c ∷ rest) =
    let kept = replace_faults with false rest in
    let dropped = replace_faults with true rest in
    if is_fault c then (if after_fault then dropped else with ++ dropped) else c.source ++ kept

unfoldable pub to_valid : Text → Text → Text
unfolding chunks replace_faults is_fault
to_valid t with = replace_faults with false (chunks t)

-- `unicode.IsSpace`.
unfoldable pub is_space : ℕ → Bool
is_space r =
    between 9 13 r
    || r == 32
    || r == 0x85
    || r == 0xa0
    || r == 0x1680
    || between 0x2000 0x200a r
    || r == 0x2028
    || r == 0x2029
    || r == 0x202f
    || r == 0x205f
    || r == 0x3000

-- `unicode.IsControl`.
unfoldable pub is_control : ℕ → Bool
is_control r = ltb r 0x20 || between 0x7f 0x9f r

-- `strings.TrimSpace(text) == ""`: what trimming removes from both ends is all there is.
unfoldable pub is_blank : Text → Bool
unfolding runes is_space
is_blank t = all is_space (runes t)

euro : runes (0xe2 ∷ 0x82 ∷ 0xac ∷ b'x' ∷ 0xff ∷ []) ≡ 0x20ac ∷ b'x' ∷ rune_error ∷ []
unfolding runes
euro = refl

surrogate : valid_string (0xed ∷ 0xa0 ∷ 0x80 ∷ []) ≡ false
unfolding valid_string
surrogate = refl

blank_words : is_blank (bytes " \t\n") ≡ true
unfolding is_blank
blank_words = refl

module _ (b : ℕ) where
  two-ge : (rest : Text) → 0xc2 ≤ b → b ≤ 0xdf → 0x80 ≤ (two b rest).0
  unfolding two
  two-ge [] h k = omega arith
  two-ge (c ∷ rest) h k = ground arith

  three-ge :
      (lo hi : ℕ) (rest : Text)
      → (0xe1 ≤ b) ⊎ (0xa0 ≤ lo)
      → 0xe0 ≤ b
      → b ≤ 0xef
      → hi ≤ 0xbf
      → 0x80 ≤ (three lo hi b rest).0
  unfolding three
  three-ge lo hi [] f h k l = omega arith
  three-ge lo hi (c ∷ []) f h k l = omega arith
  three-ge lo hi (c ∷ d ∷ rest) f h k l = ground arith

  four-ge :
      (lo hi : ℕ) (rest : Text)
      → (0xf1 ≤ b) ⊎ (0x90 ≤ lo)
      → 0xf0 ≤ b
      → b ≤ 0xf4
      → hi ≤ 0xbf
      → 0x80 ≤ (four lo hi b rest).0
  unfolding four
  four-ge lo hi [] f h k l = omega arith
  four-ge lo hi (c ∷ []) f h k l = omega arith
  four-ge lo hi (c ∷ d ∷ []) f h k l = omega arith
  four-ge lo hi (c ∷ d ∷ e ∷ rest) f h k l = ground arith

  -- A byte from 0x80 on starts no rune below 0x80.
  decode_rune-ge : (rest : Text) → 0x80 ≤ b → 0x80 ≤ (decode_rune b rest).0
  decode_rune-ge rest h =
      unfold decode_rune in
      ground (
        arith,
        two-ge rest,
        three-ge 0xa0 0xbf rest (inr (omega arith)),
        three-ge 0x80 0x9f rest,
        three-ge 0x80 0xbf rest,
        four-ge 0x90 0xbf rest (inr (omega arith)),
        four-ge 0x80 0xbf rest,
        four-ge 0x80 0x8f rest,
      )

  decode_rune-ascii : (rest : Text) → b < 0x80 → decode_rune b rest ≡ (b, 1)
  decode_rune-ascii rest h = unfold decode_rune in ground arith

module _ (p : ℕ → Bool) (ascii : (r : ℕ) → p r ≡ true → r < 0x80) where
  -- A test that only ASCII passes is the same on the runes of a text as on its bytes.
  all-decoded : (t : Text) → all p (map (λ r. r.0) (decoded 0 t)) ≡ all p t
  unfolding decoded
  all-decoded [] = refl
  all-decoded (b ∷ rest) = elim (Bool-cases (ltb b 0x80)) [
    | inl low ↦ rw (decode_rune-ascii b rest (ground arith)) (ap (λ q. p b && q) (all-decoded rest))
    | inr high ↦
        ground (arith, ascii b, ascii (decode_rune b rest).0, decode_rune-ge b rest (ground arith))
  ]

  pub all-runes : (t : Text) → all p (runes t) ≡ all p t
  unfolding runes
  all-runes t = all-decoded t

-- ASCII is valid UTF-8.
decoded-ascii :
    (t : Text)
    → All (λ b. b < 0x80) t
    → all (λ r. not (r.0 == rune_error && r.1 == 1)) (decoded 0 t) ≡ true
unfolding decoded
decoded-ascii [] h = refl
decoded-ascii (b ∷ rest) h =
    rw (decode_rune-ascii b rest h.0) (ground (arith, decoded-ascii rest h.1))

pub valid_string-ascii : (t : Text) → All (λ b. b < 0x80) t → valid_string t ≡ true
unfolding valid_string
valid_string-ascii t h = decoded-ascii t h
