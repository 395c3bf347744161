-- ===== src/Text/Decimal.antt =====
-- `strconv.Itoa` of a number that is not negative, and what its digits read back as.
use dataporch.Prelude.{
  ℕ, zero, suc, ◌+◌, ◌-◌, ◌*◌, ◌/◌, ◌%◌, ◌<◌, ◌≡◌, refl, [], ◌∷◌, ltb, if◌then◌else◌, arith,
  Bool-cases, inl, inr, ap, ◌∙◌,
}
use dataporch.Text.Order.{Text, bytes}

-- The digits before `out`; a round divides by ten, so fuel above the number is enough.
digits_loop : ℕ → ℕ → Text → Text
digits_loop zero n out = out
digits_loop (suc fuel) n out =
    let more = digits_loop fuel (n / 10) ((48 + n % 10) ∷ out) in
    if ltb n 10 then (48 + n) ∷ out else more

unfoldable pub digits : ℕ → Text
unfolding digits_loop
digits n = digits_loop (suc n) n []

pub read : ℕ → Text → ℕ
read acc [] = acc
read acc (c ∷ rest) = read (acc * 10 + (c - 48)) rest

read-digits_loop :
    (fuel n : ℕ) (out : Text) → n < fuel → read 0 (digits_loop fuel n out) ≡ read n out
unfolding read digits_loop
read-digits_loop zero n out h = absurd (omega arith)
read-digits_loop (suc fuel) n out h = elim (Bool-cases (ltb n 10)) [
  | inl e ↦ rw e (ap (λ k. read k out) (omega arith))
  | inr e ↦ rw e (
      read-digits_loop fuel (n / 10) ((48 + n % 10) ∷ out) (ground arith)
      ∙ ap (λ k. read k out) (omega arith))
]

-- The digits of a number read back as the number.
pub read-digits : (n : ℕ) → read 0 (digits n) ≡ n
unfolding digits
read-digits n = read-digits_loop (suc n) n [] (omega arith) ∙ (unfold read in refl)

digits_1024 : digits 1024 ≡ bytes "1024"
unfolding digits
digits_1024 = refl
