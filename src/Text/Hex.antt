-- ===== src/Text/Hex.antt =====
-- Package encoding/hex: two lower-case digits for a byte, and the test that `DecodeString` makes.
use dataporch.Prelude.{
  ℕ, ◌+◌, ◌*◌, ◌/◌, ◌%◌, ◌≡◌, refl, Bool, true, false, ◌&&◌, ◌||◌, [], ◌∷◌, ltb, leb, if◌then◌else◌,
  length, arith, ◌<◌, All,
}
use dataporch.Text.Order.{Text}
use dataporch.Text.Base64.{IsBytes}

digit : ℕ → ℕ
digit n = if ltb n 10 then n + 48 else n + 87

unfoldable pub encode : Text → Text
unfolding digit
encode [] = []
encode (b ∷ rest) = digit (b / 16) ∷ digit (b % 16) ∷ encode rest

is_digit : ℕ → Bool
is_digit c = leb 48 c && leb c 57 || leb 97 c && leb c 102 || leb 65 c && leb c 70

-- `_, err := hex.DecodeString(text)`, with no error.
unfoldable pub decodes : Text → Bool
unfolding is_digit
decodes [] = true
decodes (a ∷ []) = false
decodes (a ∷ b ∷ rest) = is_digit a && is_digit b && decodes rest

is_digit-digit : (n : ℕ) → n < 16 → is_digit (digit n) ≡ true
unfolding is_digit digit
is_digit-digit n h = ground arith

digit-ascii : (n : ℕ) → n < 16 → digit n < 0x80
unfolding digit
digit-ascii n h = ground arith

pub decodes-encode : (t : Text) → IsBytes t → decodes (encode t) ≡ true
unfolding decodes encode
decodes-encode [] h = refl
decodes-encode (b ∷ rest) h = ground (
  arith,
  is_digit-digit (b / 16) (omega arith),
  is_digit-digit (b % 16) (omega arith),
  decodes-encode rest h.1,
)

pub length-encode : (t : Text) → length (encode t) ≡ 2 * length t
unfolding encode
length-encode [] = omega arith
length-encode (b ∷ rest) = omega (arith, length-encode rest)

pub encode-ascii : (t : Text) → IsBytes t → All (λ b. b < 0x80) (encode t)
unfolding encode
encode-ascii [] h = tt
encode-ascii (b ∷ rest) h = (
  digit-ascii (b / 16) (omega arith),
  (digit-ascii (b % 16) (omega arith), encode-ascii rest h.1),
)
