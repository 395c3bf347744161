-- ===== src/Postgres/Rows/Bounds.antt =====
-- The size of what `readRows` and `readResult` of internal/connection/postgres/query_result.go
-- return.
use dataporch.Prelude.{
  ℕ, ◌+◌, ◌-◌, ◌≤◌, ◌≡◌, refl, ap, sym, Bool, true, false, ◌&&◌, List, [], ◌∷◌, ◌++◌, Option,
  if◌then◌else◌, ltb, ◌==◌, length, length-append, arith, inl, inr, ◌⊎◌, Bool-cases,
}
use dataporch.Text.{Text, bytes}
use dataporch.Text.Decimal.{digits}
use dataporch.Fault.{
  Fault, ok, ◌>>◌, >>=-eq-ok, require, or_else, or_fail, wraps, internal, result_too_large, Context,
  later,
}
use dataporch.Execution.Types.{RelationalQueryResult}
use dataporch.Postgres.Budget.{
  Budget, Marshal, fits, fits_additional_row, retain_row, encoded_row_size, false_size,
}
use dataporch.Postgres.Rows.{
  RawRow, Rows, Limits, context_live, new_budget, finish, admit_row, append_row, read_loop,
  read_rows, read_result,
}
use dataporch.Postgres.Rows.Prefix.{read_result-eq-ok}
use dataporch.Postgres.Rows.Encoding.{
  Quoting, IsMarshal, encode_row, encode_more, encode_rows, encode_bool, encode_result,
  length-encode_more, encoded_row_size_lem,
}

-- The part of a result's text that no row changes.
fixed_length : Quoting → RelationalQueryResult → ℕ
fixed_length j q =
    length (bytes "{\"kind\":")
    + length (j.quote q.kind)
    + length (bytes ",\"source_id\":")
    + length (j.quote q.source_id)
    + length (bytes ",\"columns\":")
    + length (j.column_list q.columns)
    + length (bytes ",\"rows\":")
    + length (bytes ",\"row_count\":")
    + length (bytes ",\"truncated\":")
    + length (bytes "}")

length-encode_result :
    (j : Quoting) (q : RelationalQueryResult)
    → length (encode_result j q)
      ≡ fixed_length j q
        + length (encode_rows j q.rows)
        + length (digits q.row_count)
        + length (encode_bool j q.truncated)
unfolding encode_result fixed_length
length-encode_result j q = simp (length-append) (omega arith)

abbrev sum : List ℕ → ℕ
sum [] = 0
sum (n ∷ ns) = n + sum ns

fits-le : (limit : ℕ) (parts : List ℕ) → fits limit parts ≡ true → sum parts ≤ limit
unfolding fits
fits-le limit [] h = omega arith
fits-le limit (n ∷ ns) h = ground (arith, fits-le (limit - n) ns)

fits_additional_row-le :
    (b : Budget) (size : ℕ)
    → fits_additional_row b size ≡ true
    → b.fixed_size
        + (b.rows_size
            + ((if ltb 0 b.retained_rows then 1 else 0)
                + (size + (length (digits (b.retained_rows + 1)) + 5))))
      ≤ b.limit
unfolding fits_additional_row
fits_additional_row-le b size h = ground (arith, fits-le b.limit _ h)

length-encode_rows :
    (j : Quoting) (rs : List RawRow) (r : RawRow)
    → length (encode_rows j (rs ++ r ∷ []))
      ≡ length (encode_rows j rs) + ((if ltb 0 (length rs) then 1 else 0) + length (encode_row j r))
unfolding encode_rows
length-encode_rows j [] r = ground (
  arith,
  length-encode_more j true [] r,
  length-append (encode_more j true (r ∷ [])) (b']' ∷ []),
  length-append (encode_more j true []) (b']' ∷ []),
)
length-encode_rows j (x ∷ rs) r = ground (
  arith,
  length-encode_more j true (x ∷ rs) r,
  length-append (encode_more j true (x ∷ (rs ++ r ∷ []))) (b']' ∷ []),
  length-append (encode_more j true (x ∷ rs)) (b']' ∷ []),
)

require-eq-ok :
    {A : Type 0} (t : Bool) (e : Fault) (x : A) {y : A}
    → (require t e >> ok x) ≡ ok y
    → (t ≡ true) × (x ≡ y)
require-eq-ok true e x h = (refl, ground (arith, h))
require-eq-ok false e x h = ground (arith, h)

length-encode_bool : (j : Quoting) (t : Bool) → length (encode_bool j t) ≤ 5
unfolding encode_bool
length-encode_bool j true = omega arith
length-encode_bool j false = omega arith

ok-injective : {A : Type 0} {x y : A} → ok x ≡ ok y → x ≡ y
ok-injective e = ground (arith, e)

-- What the limits promise of a result.
pub record IsBounded (l : Limits) (j : Quoting) (q : RelationalQueryResult) : Type 0 where
  pub size_bound : length (encode_result j q) ≤ l.byte_limit
  pub row_bound : (l.truncate ≡ false) ⊎ (length q.rows ≤ l.row_limit)

-- The budget accounts for the rows that are kept, and leaves room for the count and the mark.
record IsBudget (l : Limits) (j : Quoting) (b : Budget) (q : RelationalQueryResult) : Type 0 where
  limit_kept : b.limit ≡ l.byte_limit
  fixed_part : b.fixed_size ≡ fixed_length j q
  rows_part : b.rows_size ≡ length (encode_rows j q.rows)
  rows_counted : b.retained_rows ≡ length q.rows
  room : b.fixed_size + b.rows_size + length (digits b.retained_rows) + 5 ≤ l.byte_limit
  few : l.truncate ≡ true → length q.rows ≤ l.row_limit

module _ (m : Marshal) (j : Quoting) (law : IsMarshal m j) (l : Limits) where
  new_budget-IsBudget :
      (q : RelationalQueryResult) (b : Budget)
      → q.rows ≡ []
      → new_budget m l q ≡ ok b
      → IsBudget l j b q
  unfolding new_budget fixed_length encode_rows encode_more
  new_budget-IsBudget q b e h =
      let parts : List ℕ = fixed_length j q ∷ 2 ∷ length (digits 0) ∷ false_size ∷ [] in
      let c = require-eq-ok (fits l.byte_limit parts) _ _ (
        rw (law.columns_total q.columns) at
          (rw (law.text_total q.source_id) at (rw (law.text_total q.kind) at h))) in
      record {
        limit_kept = ground (arith, c.1);
        fixed_part = ground (arith, c.1);
        rows_part = ground (arith, c.1);
        rows_counted = ground (arith, c.1);
        room = ground (arith, c.1, fits-le l.byte_limit parts c.0, ap (λ b. b.retained_rows) c.1);
        few = λ t. ground arith;
      }

  admit_row_lem :
      (x : RawRow) (b : Budget) (q : RelationalQueryResult) (size : ℕ)
      → admit_row m l x b q ≡ ok size
      → (size ≡ length (encode_row j x)) × (fits_additional_row b size ≡ true)
  unfolding admit_row
  admit_row_lem x b q size h =
      let a = >>=-eq-ok (require (length x == length q.columns) (wraps internal)) _ h in
      let d = >>=-eq-ok (or_else (encoded_row_size m x l.byte_limit) (λ e. wraps internal)) _ a.2 in
      let f = >>=-eq-ok (or_fail d.0 (wraps result_too_large)) _ d.2 in
      let g = >>=-eq-ok (require (fits_additional_row b f.0) (wraps result_too_large)) _ f.2 in
      ground (arith, encoded_row_size_lem m j law x l.byte_limit, a.1, d.1, f.1, g.1, g.2)

  append_row-IsBudget :
      (x : RawRow) (b : Budget) (q : RelationalQueryResult) (size : ℕ)
      → IsBudget l j b q
      → (l.truncate && length q.rows == l.row_limit) ≡ false
      → size ≡ length (encode_row j x)
      → fits_additional_row b size ≡ true
      → IsBudget l j (retain_row size b) (append_row x q)
  unfolding retain_row append_row fixed_length
  append_row-IsBudget x b q size v go e fit =
      let n = length-append q.rows (x ∷ []) in
      let r = length-encode_rows j q.rows x in
      record {
        limit_kept = v.limit_kept;
        fixed_part = v.fixed_part;
        rows_part = ground (arith, r, v.rows_part, v.rows_counted);
        rows_counted = ground (arith, n, v.rows_counted);
        room = ground (arith, fits_additional_row-le b size fit, v.limit_kept);
        few = λ t. ground (arith, n, v.few t);
      }

  -- A budget that is kept is enough for the count and the mark.
  result-IsBounded :
      (q : RelationalQueryResult) (b : Budget) (r : RelationalQueryResult) (t : Bool)
      → IsBudget l j b q
      → r ≡ record q { row_count = length q.rows; truncated = t }
      → IsBounded l j r
  unfolding fixed_length
  result-IsBounded q b r t v e =
      let n = length-encode_result j (record q { row_count = length q.rows; truncated = t }) in
      let k = length-encode_bool j t in
      rw e (record {
        size_bound = ground (arith, n, k, v.room, v.fixed_part, v.rows_part, v.rows_counted);
        row_bound = elim (Bool-cases l.truncate) [ inl y ↦ inr (v.few y) | inr n ↦ inl n ];
      })

  read_loop-IsBounded :
      (raw : List RawRow) (ctx : Context) (b : Budget) (q r : RelationalQueryResult)
      → IsBudget l j b q
      → q.row_count ≡ length q.rows
      → read_loop m l raw ctx b q ≡ ok r
      → IsBounded l j r
  unfolding read_loop finish
  read_loop-IsBounded [] ctx b q r v c h =
      let a = >>=-eq-ok (context_live ctx) _ h in
      result-IsBounded q b r q.truncated v (sym (ok-injective a.2))
  read_loop-IsBounded (x ∷ raw) ctx b q r v c h =
      let a = >>=-eq-ok (context_live ctx) _ h in
      elim (Bool-cases (l.truncate && length q.rows == l.row_limit)) [
        | inl stop ↦
            let d = >>=-eq-ok (context_live (later ctx)) _ (rw stop at a.2) in
            result-IsBounded q b r true v (sym (ok-injective d.2))
        | inr go ↦
            let d = >>=-eq-ok (admit_row m l x b q) _ (rw go at a.2) in
            let s = admit_row_lem x b q d.0 d.1 in
            read_loop-IsBounded raw (later ctx) (retain_row d.0 b) (append_row x q) r
              (append_row-IsBudget x b q d.0 v go s.0 s.1) (unfold append_row in refl) d.2
      ]

  read_rows-IsBounded :
      (raw_rows : List RawRow) (ctx : Context) (q r : RelationalQueryResult)
      → q.rows ≡ []
      → q.row_count ≡ 0
      → read_rows m l raw_rows ctx q ≡ ok r
      → IsBounded l j r
  unfolding read_rows
  read_rows-IsBounded raw_rows ctx q r e c h =
      let d = >>=-eq-ok (new_budget m l q) _ h in
      read_loop-IsBounded raw_rows ctx d.0 q r (new_budget-IsBudget q d.0 e d.1)
        (ground (arith, e, c)) d.2

  -- With an encoder as the law describes it: a result that `read_result` returns has a JSON text of
  -- at most `byte_limit` bytes and, where truncation is asked for, at most `row_limit` rows.
  pub read_result-IsBounded :
      (type_name : ℕ → Option Text) (ctx : Context) (kind source_id : Text) (rows : Rows)
      (r : RelationalQueryResult)
      → read_result m l type_name ctx kind source_id rows ≡ ok r
      → IsBounded l j r
  read_result-IsBounded type_name ctx kind source_id rows r h =
      let p = read_result-eq-ok m l type_name ctx kind source_id rows r h in
      read_rows-IsBounded rows.raw_rows ctx _ r refl refl p.1
