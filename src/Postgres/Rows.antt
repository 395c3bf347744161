-- ===== src/Postgres/Rows.antt =====
-- `readResult`, `readRows` and `queryColumns` of internal/connection/postgres/query_result.go. The
-- driver's rows are the list of raw rows that it yields, with the error that it ends in.
pub mod Encoding
pub mod Prefix
pub mod Bounds
use dataporch.Prelude.{
  ℕ, zero, suc, ◌+◌, ◌-◌, Bool, true, false, not, ◌&&◌, ◌||◌, List, [], ◌∷◌, ◌++◌, Option, none,
  some, if◌then◌else◌, ltb, leb, ◌==◌, length,
}
use dataporch.Text.{Text, bytes}
use dataporch.Text.Decimal.{digits}
use dataporch.Fault.{
  Fault, Checked, Result, ok, err, wraps, internal, invalid_query, result_too_large, ◌>>=◌, ◌>>◌,
  require, or_else, or_fail, Context, nil_context, context, later,
}
use dataporch.Execution.Types.{RelationalQueryColumn, RelationalQueryResult}
use dataporch.Postgres.Budget.{
  Budget, fits, fits_additional_row, retain_row, false_size, encoded_row_size, Marshal,
}

-- A row as the driver hands it out: a value is nil or bytes.
abbrev pub RawRow : Type 0
RawRow = List (Option Text)

-- A field of the result: its name and the number of its type.
pub record Field : Type 0 where
  pub name : Text
  pub type_oid : ℕ

-- `rows`: what `FieldDescriptions` returns, the rows that `Next` steps through, and what `Err`
-- returns in the end.
pub record Rows : Type 0 where
  pub fields : List Field
  pub raw_rows : List RawRow
  pub terminal : Option Fault

-- The options of a `QueryExecutor` that the reading depends on.
pub record Limits : Type 0 where
  pub byte_limit : ℕ
  pub truncate : Bool
  pub row_limit : ℕ

-- `queryColumns`; the connection knows the names of some types.
unfoldable pub query_columns : (ℕ → Option Text) → List Field → List RelationalQueryColumn
query_columns type_name [] = []
query_columns type_name (f ∷ fields) =
    record {
      name = f.name;
      database_type = elim (type_name f.type_oid) [
        | some t ↦ t
        | none ↦ bytes "oid:" ++ digits f.type_oid
      ];
    }
    ∷ query_columns type_name fields

-- `queryContext.Err()`.
abbrev pub context_live : Context → Checked
context_live nil_context = ok tt
context_live (context e) = elim (e 0) [ none ↦ ok tt | some s ↦ err (wraps s) ]

unfoldable pub append_row : RawRow → RelationalQueryResult → RelationalQueryResult
append_row raw q = record q { rows = q.rows ++ raw ∷ []; row_count = length (q.rows ++ raw ∷ []) }

module _ (m : Marshal) (l : Limits) where
  unfoldable pub new_budget : RelationalQueryResult → Result Budget
  new_budget q = do
    kind ← m.text q.kind
    source ← m.text q.source_id
    columns ← m.columns q.columns
    let fixed =
        length (bytes "{\"kind\":")
        + length kind
        + length (bytes ",\"source_id\":")
        + length source
        + length (bytes ",\"columns\":")
        + length columns
        + length (bytes ",\"rows\":")
        + length (bytes ",\"row_count\":")
        + length (bytes ",\"truncated\":")
        + length (bytes "}")
    require (fits l.byte_limit (fixed ∷ 2 ∷ length (digits 0) ∷ false_size ∷ []))
        (wraps result_too_large)
    ok (record { limit = l.byte_limit; fixed_size = fixed; rows_size = 2; retained_rows = 0 })

  -- What follows the loop.
  unfoldable pub finish : Context → RelationalQueryResult → Result RelationalQueryResult
  finish ctx q = do context_live ctx; ok (record q { row_count = length q.rows })

  -- The checks that a row has to pass, and its encoded size.
  unfoldable pub admit_row : RawRow → Budget → RelationalQueryResult → Result ℕ
  admit_row raw b q = do
    require (length raw == length q.columns) (wraps internal)
    sized ← or_else (encoded_row_size m raw l.byte_limit) (λ e. wraps internal)
    size ← or_fail sized (wraps result_too_large)
    require (fits_additional_row b size) (wraps result_too_large)
    ok size

  -- The loop of `readRows`.
  unfoldable pub read_loop :
      List RawRow → Context → Budget → RelationalQueryResult → Result RelationalQueryResult
  read_loop [] ctx b q = finish ctx q
  read_loop (raw ∷ rest) ctx b q = do
    context_live ctx
    if l.truncate && length q.rows == l.row_limit
        then finish (later ctx) (record q { truncated = true })
        else (do
          size ← admit_row raw b q
          read_loop rest (later ctx) (retain_row size b) (append_row raw q))

  unfoldable pub read_rows :
      List RawRow → Context → RelationalQueryResult → Result RelationalQueryResult
  read_rows raw_rows ctx q = do b ← new_budget q; read_loop raw_rows ctx b q

  -- `readResult`: with no columns there is no result, and the error that the driver ends in, joined
  -- to that of the reading, takes the place of any result.
  unfoldable pub read_result :
      (ℕ → Option Text) → Context → Text → Text → Rows → Result RelationalQueryResult
  read_result type_name ctx kind source_id rows = elim rows.fields [
    | [] ↦ elim rows.terminal [ some e ↦ err e | none ↦ err (wraps invalid_query) ]
    | f ∷ fields ↦
        let read = read_rows rows.raw_rows ctx (record {
          kind = kind;
          source_id = source_id;
          columns = query_columns type_name (f ∷ fields);
          rows = [];
          row_count = 0;
          truncated = false;
        }) in
        elim rows.terminal [
          | none ↦ read
          | some e ↦ elim read [ ok q ↦ err e | err x ↦ err (x ++ e) ]
        ]
  ]
