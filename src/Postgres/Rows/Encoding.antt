-- ===== src/Postgres/Rows/Encoding.antt =====
-- The JSON text of a query result, as the field tags of `RelationalQueryResult` lay it out, and the
-- sizes that the reading of rows computes for its parts.
use dataporch.Prelude.{
  ℕ, ◌+◌, ◌-◌, ◌≤◌, ◌≡◌, refl, ap, ◌∙◌, sym, Bool, true, false, List, [], ◌∷◌, ◌++◌, Option, none,
  some, if◌then◌else◌, leb, length, length-append, arith,
}
use dataporch.Text.{Text, bytes}
use dataporch.Text.Decimal.{digits}
use dataporch.Fault.{Result, ok, ◌>>=◌}
use dataporch.Execution.Types.{RelationalQueryColumn, RelationalQueryResult}
use dataporch.Postgres.Budget.{Marshal, consume, consume_value, consume_values, encoded_row_size}

-- What packages encoding/json write: a text in quotes, and the array of columns.
pub record Quoting : Type 0 where
  pub quote : Text → Text
  pub column_list : List RelationalQueryColumn → Text

-- The encoder returns that, and a text takes at least its bytes and two quotes.
pub record IsMarshal (m : Marshal) (j : Quoting) : Type 0 where
  pub text_total : (t : Text) → m.text t ≡ ok (j.quote t)
  pub columns_total : (cs : List RelationalQueryColumn) → m.columns cs ≡ ok (j.column_list cs)
  pub longer : (t : Text) → length t + 2 ≤ length (j.quote t)

module _ (j : Quoting) where
  abbrev pub encode_value : Option Text → Text
  encode_value none = bytes "null"
  encode_value (some t) = j.quote t

  -- The values of a row, with a comma before each but the first.
  unfoldable pub encode_values : Bool → List (Option Text) → Text
  encode_values first [] = []
  encode_values first (v ∷ vs) =
      (if first then [] else b',' ∷ []) ++ (encode_value v ++ encode_values false vs)

  unfoldable pub encode_row : List (Option Text) → Text
  encode_row vs = b'[' ∷ (encode_values true vs ++ b']' ∷ [])

  unfoldable pub encode_more : Bool → List (List (Option Text)) → Text
  encode_more first [] = []
  encode_more first (r ∷ rs) =
      (if first then [] else b',' ∷ []) ++ (encode_row r ++ encode_more false rs)

  unfoldable pub encode_rows : List (List (Option Text)) → Text
  encode_rows rs = b'[' ∷ (encode_more true rs ++ b']' ∷ [])

  unfoldable pub encode_bool : Bool → Text
  encode_bool true = bytes "true"
  encode_bool false = bytes "false"

  -- `json.Marshal` of a result.
  unfoldable pub encode_result : RelationalQueryResult → Text
  encode_result q =
      bytes "{\"kind\":"
      ++ (j.quote q.kind
          ++ (bytes ",\"source_id\":"
              ++ (j.quote q.source_id
                  ++ (bytes ",\"columns\":"
                      ++ (j.column_list q.columns
                          ++ (bytes ",\"rows\":"
                              ++ (encode_rows q.rows
                                  ++ (bytes ",\"row_count\":"
                                      ++ (digits q.row_count
                                          ++ (bytes ",\"truncated\":"
                                              ++ (encode_bool q.truncated ++ bytes "}")))))))))))

-- The last row adds its own text and, unless it is the first, a comma.
pub length-encode_more :
    (j : Quoting) (first : Bool) (rs : List (List (Option Text))) (r : List (Option Text))
    → length (encode_more j first (rs ++ r ∷ []))
      ≡ length (encode_more j first rs)
        + ((if first then (elim rs [ [] ↦ 0 | _ ∷ _ ↦ 1 ]) else 1) + length (encode_row j r))
unfolding encode_more
length-encode_more j true [] r = ground (arith, length-append (encode_row j r) [])
length-encode_more j false [] r = ground (arith, length-append (encode_row j r) [])
length-encode_more j first (x ∷ rs) r = ground (
  arith,
  length-append (encode_row j x) (encode_more j false (rs ++ r ∷ [])),
  length-append (encode_row j x) (encode_more j false rs),
  length-encode_more j false rs r,
)

-- To consume two sizes one after the other is to consume their sum.
consume-then :
    (n k r : ℕ) (f : ℕ → Result (Option ℕ))
    → ((r' : ℕ) → f r' ≡ ok (consume k r'))
    → elim (consume n r) [ none ↦ ok none | some r' ↦ f r' ] ≡ ok (consume (n + k) r)
unfolding consume
consume-then n k r f h = ground (arith, h (r - n))

module _ (m : Marshal) (j : Quoting) (law : IsMarshal m j) where
  consume_value_lem :
      (v : Option Text) (remaining : ℕ)
      → consume_value m v remaining ≡ ok (consume (length (encode_value j v)) remaining)
  unfolding consume_value consume
  consume_value_lem none remaining = refl
  consume_value_lem (some t) remaining = ground (arith, law.text_total t, law.longer t)

  -- A value and what follows it, from what the comma leaves.
  abbrev then_values : Option Text → List (Option Text) → ℕ → Result (Option ℕ)
  then_values v vs r = do
    left ← consume_value m v r
    elim left [ none ↦ ok none | some r' ↦ consume_values m false vs r' ]

  then_values_lem :
      (v : Option Text) (vs : List (Option Text)) (r k : ℕ)
      → ((r' : ℕ) → consume_values m false vs r' ≡ ok (consume k r'))
      → then_values v vs r ≡ ok (consume (length (encode_value j v) + k) r)
  then_values_lem v vs r k ih =
      let n : ℕ = length (encode_value j v) in
      rw (consume_value_lem v r) (consume-then n k r (consume_values m false vs) ih)

  consume_values_lem :
      (first : Bool) (vs : List (Option Text)) (remaining : ℕ)
      → consume_values m first vs remaining
        ≡ ok (consume (length (encode_values j first vs)) remaining)
  unfolding consume_values encode_values
  consume_values_lem first [] remaining = unfold consume in ground arith
  consume_values_lem true (v ∷ vs) remaining =
      then_values_lem v vs remaining _ (consume_values_lem false vs)
      ∙ ap (λ n. ok (consume n remaining))
          (sym (length-append (encode_value j v) (encode_values j false vs)))
  consume_values_lem false (v ∷ vs) remaining =
      consume-then 1 _ remaining (then_values v vs)
        (λ r. then_values_lem v vs r _ (consume_values_lem false vs))
      ∙ ap (λ n. ok (consume n remaining))
          (omega (arith, length-append (encode_value j v) (encode_values j false vs)))

  -- With an encoder as the law describes it: the size that the loop computes for a row is the
  -- length of its text; there is none exactly if that passes the limit.
  pub encoded_row_size_lem :
      (vs : List (Option Text)) (limit : ℕ)
      → encoded_row_size m vs limit
        ≡ ok
            (if leb (length (encode_row j vs)) limit then some (length (encode_row j vs)) else none)
  unfolding encoded_row_size encode_row consume
  encoded_row_size_lem vs limit = ground (
    arith,
    consume_values_lem true vs (limit - 2),
    length-append (encode_values j true vs) (b']' ∷ []),
  )
