-- ===== src/Postgres/Budget.antt =====
-- `queryResultBudget` and `encodedRawRowSize` of internal/connection/postgres/query_result.go: the
-- accounting of the encoded response. What package encoding/json writes for a text is a parameter.
use dataporch.Prelude.{
  ℕ, ◌+◌, ◌-◌, Bool, true, false, List, [], ◌∷◌, Option, none, some, if◌then◌else◌, ltb, ◌||◌,
  length,
}
use dataporch.Text.{Text}
use dataporch.Text.Decimal.{digits}
use dataporch.Execution.Types.{RelationalQueryColumn}
use dataporch.Fault.{Result, ok, ◌>>=◌}

pub record Budget : Type 0 where
  pub limit : ℕ
  pub fixed_size : ℕ
  pub rows_size : ℕ
  pub retained_rows : ℕ

-- The loop of `fits`: a size is never negative.
unfoldable pub fits : ℕ → List ℕ → Bool
fits remaining [] = true
fits remaining (part ∷ parts) = if ltb remaining part then false else fits (remaining - part) parts

abbrev pub false_size : ℕ
false_size = 5

unfoldable pub fits_additional_row : Budget → ℕ → Bool
fits_additional_row b row_size = fits b.limit (
    b.fixed_size
    ∷ b.rows_size
    ∷ (if ltb 0 b.retained_rows then 1 else 0)
    ∷ row_size
    ∷ length (digits (b.retained_rows + 1))
    ∷ false_size
    ∷ [])

unfoldable pub retain_row : ℕ → Budget → Budget
retain_row row_size b = record b {
  rows_size = (if ltb 0 b.retained_rows then b.rows_size + 1 else b.rows_size) + row_size;
  retained_rows = b.retained_rows + 1;
}

-- `json.Marshal` of a text and of the columns.
pub record Marshal : Type 0 where
  pub text : Text → Result Text
  pub columns : List RelationalQueryColumn → Result Text

-- `consume` on what remains of the limit.
unfoldable pub consume : ℕ → ℕ → Option ℕ
consume size remaining = if ltb remaining size then none else some (remaining - size)

module _ (m : Marshal) where
  -- One value of a row: what remains after it, none if it does not fit.
  unfoldable pub consume_value : Option Text → ℕ → Result (Option ℕ)
  consume_value none remaining = ok (consume 4 remaining)
  consume_value (some raw) remaining =
      if ltb remaining 2 || ltb (remaining - 2) (length raw)
      then ok none
      else (do encoded ← m.text raw; ok (consume (length encoded) remaining))

  -- The loop over the values; every value but the first has a comma before it.
  unfoldable pub consume_values : Bool → List (Option Text) → ℕ → Result (Option ℕ)
  consume_values first [] remaining = ok (some remaining)
  consume_values first (v ∷ vs) remaining =
      elim (if first then some remaining else consume 1 remaining) [
        | none ↦ ok none
        | some r ↦ do
          left ← consume_value v r
          elim left [ none ↦ ok none | some r' ↦ consume_values false vs r' ]
      ]

  -- `encodedRawRowSize`: the size, or none if it passes the limit.
  unfoldable pub encoded_row_size : List (Option Text) → ℕ → Result (Option ℕ)
  encoded_row_size raw limit = elim (consume 2 limit) [
    | none ↦ ok none
    | some r ↦ do
      left ← consume_values true raw r
      ok (elim left [ none ↦ none | some remaining ↦ some (limit - remaining) ])
  ]
