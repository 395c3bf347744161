-- ===== src/Postgres/Rows/Prefix.antt =====
-- The rows that `readRows` and `readResult` of internal/connection/postgres/query_result.go keep.
use mathlib.Core.List.{append_assoc}
use dataporch.Prelude.{
  ℕ, ◌≡◌, refl, ◌∙◌, sym, true, false, ◌&&◌, List, [], ◌∷◌, ◌++◌, Option, none, ltb, ◌==◌, length,
  arith, inl, inr, ◌⊎◌, Bool-cases,
}
use dataporch.Text.{Text}
use dataporch.Fault.{ok, >>=-eq-ok, Context, later}
use dataporch.Execution.Types.{RelationalQueryResult}
use dataporch.Postgres.Budget.{Budget, Marshal, retain_row}
use dataporch.Postgres.Rows.{
  RawRow, Field, Rows, Limits, context_live, new_budget, finish, admit_row, append_row, read_loop,
  read_rows, read_result, query_columns,
}

-- What a result is against the rows `whole` that the driver yields: its rows are the first of them;
-- it is marked as truncated exactly if some are left, and then truncation was asked for and the row
-- limit is met.
pub record IsPrefix (l : Limits) (whole : List RawRow) (q : RelationalQueryResult) : Type 0 where
  pub dropped : List RawRow
  pub parts : whole ≡ q.rows ++ dropped
  pub counted : q.row_count ≡ length q.rows
  pub marked : q.truncated ≡ ltb 0 (length dropped)
  pub cut : (q.truncated ≡ false) ⊎ ((l.truncate ≡ true) × (length q.rows ≡ l.row_limit))

rows-append_row :
    (x : RawRow) (raw : List RawRow) (q : RelationalQueryResult) (whole : List RawRow)
    → whole ≡ q.rows ++ x ∷ raw
    → whole ≡ (append_row x q).rows ++ raw
unfolding append_row
rows-append_row x raw q whole e = e ∙ sym (append_assoc q.rows (x ∷ []) raw)

-- The result before the first row.
abbrev pub empty_result : (ℕ → Option Text) → Text → Text → List Field → RelationalQueryResult
empty_result type_name kind source_id fields = record {
  kind = kind;
  source_id = source_id;
  columns = query_columns type_name fields;
  rows = [];
  row_count = 0;
  truncated = false;
}

module _ (m : Marshal) (l : Limits) where
  read_loop-IsPrefix :
      (raw : List RawRow) (ctx : Context) (b : Budget) (q r : RelationalQueryResult)
      (whole : List RawRow)
      → whole ≡ q.rows ++ raw
      → q.truncated ≡ false
      → read_loop m l raw ctx b q ≡ ok r
      → IsPrefix l whole r
  unfolding read_loop finish
  read_loop-IsPrefix [] ctx b q r whole e t h =
      let a = >>=-eq-ok (context_live ctx) _ h in
      record {
        dropped = [];
        parts = ground arith;
        counted = ground (arith, a.2);
        marked = ground (arith, a.2);
        cut = inl (ground (arith, a.2));
      }
  read_loop-IsPrefix (x ∷ raw) ctx b q r whole e t h =
      let a = >>=-eq-ok (context_live ctx) _ h in
      elim (Bool-cases (l.truncate && length q.rows == l.row_limit)) [
        | inl stop ↦
            let d = >>=-eq-ok (context_live (later ctx)) _ (rw stop at a.2) in
            record {
              dropped = x ∷ raw;
              parts = ground (arith, d.2);
              counted = ground (arith, d.2);
              marked = ground (arith, d.2);
              cut = inr (ground arith, ground (arith, d.2));
            }
        | inr go ↦
            let d = >>=-eq-ok (admit_row m l x b q) _ (rw go at a.2) in
            read_loop-IsPrefix raw (later ctx) (retain_row d.0 b) (append_row x q) r whole
              (rows-append_row x raw q whole e) (unfold append_row in t) d.2
      ]

  -- A result that is returned is what `read_rows` returns for a driver that ends without an error.
  pub read_result-eq-ok :
      (type_name : ℕ → Option Text) (ctx : Context) (kind source_id : Text) (rows : Rows)
      (r : RelationalQueryResult)
      → read_result m l type_name ctx kind source_id rows ≡ ok r
      → (rows.terminal ≡ none)
        × (read_rows m l rows.raw_rows ctx (empty_result type_name kind source_id rows.fields)
            ≡ ok r)
  unfolding read_result
  read_result-eq-ok type_name ctx kind source_id rows r h = ground arith

  -- If `read_result` returns a result, the driver ended without an error, and the rows of the
  -- result are the first of the rows it yielded, counted; the result is marked as truncated exactly
  -- if rows are left, and then truncation is asked for and the row limit is met.
  pub read_result-IsPrefix :
      (type_name : ℕ → Option Text) (ctx : Context) (kind source_id : Text) (rows : Rows)
      (r : RelationalQueryResult)
      → read_result m l type_name ctx kind source_id rows ≡ ok r
      → (rows.terminal ≡ none) × IsPrefix l rows.raw_rows r
  unfolding read_rows
  read_result-IsPrefix type_name ctx kind source_id rows r h =
      let p = read_result-eq-ok type_name ctx kind source_id rows r h in
      let d =
        >>=-eq-ok (new_budget m l (empty_result type_name kind source_id rows.fields)) _ p.1 in
      (p.0, read_loop-IsPrefix rows.raw_rows ctx d.0 _ r rows.raw_rows refl refl d.2)
