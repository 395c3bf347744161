-- ===== src/Text/Base64.antt =====
-- `base64.RawURLEncoding` of package encoding/base64: the URL alphabet, no padding.
use dataporch.Prelude.{
  ℕ, ◌+◌, ◌-◌, ◌*◌, ◌/◌, ◌%◌, ◌<◌, ◌≡◌, refl, ◌&&◌, ◌||◌, List, [], ◌∷◌, Option, none, some, ltb,
  leb, ◌==◌, if◌then◌else◌, All, arith, length, ◌≤◌,
}
use dataporch.Text.Order.{Text}

-- The letter of a sextet.
letter : ℕ → ℕ
letter n =
    if ltb n 26
    then n + 65
    else if ltb n 52
    then n + 71
    else if ltb n 62
    then n - 52 + 48
    else if n == 62
    then b'-'
    else b'_'

sextet : ℕ → Option ℕ
sextet c =
    if leb 65 c && leb c 90
    then some (c - 65)
    else if leb 97 c && leb c 122
    then some (c - 71)
    else if leb 48 c && leb c 57
    then some (c - 48 + 52)
    else if c == b'-'
    then some 62
    else if c == b'_'
    then some 63
    else none

sextet-letter : (n : ℕ) → n < 64 → sextet (letter n) ≡ some n
unfolding sextet letter
sextet-letter n h = ground arith

-- `EncodeToString`.
unfoldable pub encode : Text → Text
unfolding letter
encode [] = []
encode (a ∷ []) = letter (a / 4) ∷ letter ((a % 4) * 16) ∷ []
encode (a ∷ b ∷ []) = letter (a / 4) ∷ letter ((a % 4) * 16 + b / 16) ∷ letter ((b % 16) * 4) ∷ []
encode (a ∷ b ∷ c ∷ rest) =
    letter (a / 4)
    ∷ letter ((a % 4) * 16 + b / 16)
    ∷ letter ((b % 16) * 4 + c / 64)
    ∷ letter (c % 64)
    ∷ encode rest

-- The decoder passes over line breaks, wherever they stand.
skip_breaks : Text → Text
skip_breaks [] = []
skip_breaks (c ∷ rest) = if c == 10 || c == 13 then skip_breaks rest else c ∷ skip_breaks rest

sextets : Text → Option (List ℕ)
sextets [] = some []
sextets (c ∷ rest) = elim (sextet c) [
  | none ↦ none
  | some n ↦ elim (sextets rest) [ none ↦ none | some ns ↦ some (n ∷ ns) ]
]

-- A group of two or three sextets ends the input; its spare bits are not looked at. One sextet
-- alone is a fault.
join : List ℕ → Option Text
join [] = some []
join (w ∷ []) = none
join (w ∷ x ∷ []) = some ((w * 4 + x / 16) ∷ [])
join (w ∷ x ∷ y ∷ []) = some ((w * 4 + x / 16) ∷ ((x % 16) * 16 + y / 4) ∷ [])
join (w ∷ x ∷ y ∷ z ∷ rest) = elim (join rest) [
  | none ↦ none
  | some t ↦ some ((w * 4 + x / 16) ∷ ((x % 16) * 16 + y / 4) ∷ ((y % 4) * 64 + z) ∷ t)
]

then_join : Option (List ℕ) → Option Text
unfolding join
then_join none = none
then_join (some ns) = join ns

-- `DecodeString`.
unfoldable pub decode : Text → Option Text
unfolding skip_breaks sextets sextet then_join
decode t = then_join (sextets (skip_breaks t))

-- The sextets of some bytes.
split : Text → List ℕ
split [] = []
split (a ∷ []) = (a / 4) ∷ ((a % 4) * 16) ∷ []
split (a ∷ b ∷ []) = (a / 4) ∷ ((a % 4) * 16 + b / 16) ∷ ((b % 16) * 4) ∷ []
split (a ∷ b ∷ c ∷ rest) =
    (a / 4) ∷ ((a % 4) * 16 + b / 16) ∷ ((b % 16) * 4 + c / 64) ∷ (c % 64) ∷ split rest

abbrev pub IsBytes : Text → Type 0
IsBytes = All (λ b. b < 256)

pub ascii-IsBytes : (t : Text) → All (λ b. b < 0x80) t → IsBytes t
ascii-IsBytes [] h = tt
ascii-IsBytes (b ∷ t) h = (omega arith, ascii-IsBytes t h.1)

letters : List ℕ → Text
letters [] = []
letters (n ∷ ns) = letter n ∷ letters ns

encode-letters : (t : Text) → encode t ≡ letters (split t)
unfolding encode letters split
encode-letters [] = refl
encode-letters (a ∷ []) = refl
encode-letters (a ∷ b ∷ []) = refl
encode-letters (a ∷ b ∷ c ∷ rest) = cc (encode-letters rest)

skip_breaks-letters : (ns : List ℕ) → skip_breaks (letters ns) ≡ letters ns
unfolding skip_breaks letters letter
skip_breaks-letters [] = refl
skip_breaks-letters (n ∷ ns) = ground (arith, skip_breaks-letters ns)

sextets-letters : (ns : List ℕ) → All (λ n. n < 64) ns → sextets (letters ns) ≡ some ns
unfolding sextets letters
sextets-letters [] h = refl
sextets-letters (n ∷ ns) h = ground (arith, sextet-letter n, sextets-letters ns)

split-sextets : (t : Text) → IsBytes t → All (λ n. n < 64) (split t)
unfolding split
split-sextets [] h = tt
split-sextets (a ∷ []) h = omega arith
split-sextets (a ∷ b ∷ []) h = omega arith
split-sextets (a ∷ b ∷ c ∷ rest) h =
    (omega arith, (omega arith, (omega arith, (omega arith, split-sextets rest h.1.1.1))))

join-split : (t : Text) → IsBytes t → join (split t) ≡ some t
unfolding join split
join-split [] h = refl
join-split (a ∷ []) h = ground arith
join-split (a ∷ b ∷ []) h = ground arith
join-split (a ∷ b ∷ c ∷ rest) h = ground (arith, join-split rest h.1.1.1)

decode-parts : (t : Text) → decode t ≡ then_join (sextets (skip_breaks t))
unfolding decode
decode-parts t = refl

-- What `EncodeToString` writes, `DecodeString` reads back.
pub decode-encode : (t : Text) → IsBytes t → decode (encode t) ≡ some t
unfolding then_join
decode-encode t h = rw decode-parts (
    rw
      (
        encode-letters t,
        skip_breaks-letters (split t),
        sextets-letters (split t) (split-sextets t h),
      )
      (join-split t h))

-- Four letters for three bytes.
pub length-encode : (t : Text) → 3 * length (encode t) ≤ 4 * length t + 5
unfolding encode
length-encode [] = omega arith
length-encode (a ∷ []) = omega arith
length-encode (a ∷ b ∷ []) = omega arith
length-encode (a ∷ b ∷ c ∷ rest) = omega (arith, length-encode rest)

letters-ascii : (ns : List ℕ) → All (λ n. n < 64) ns → All (λ b. b < 0x80) (letters ns)
unfolding letters letter
letters-ascii [] h = tt
letters-ascii (n ∷ ns) h = (ground (arith, h.0), letters-ascii ns h.1)

-- The letters are ASCII.
pub encode-ascii : (t : Text) → IsBytes t → All (λ b. b < 0x80) (encode t)
encode-ascii t h = rw (encode-letters t) (letters-ascii (split t) (split-sextets t h))
