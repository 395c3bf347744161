-- ===== src/Tests/Results.antt =====
-- A query result of two rows, read with room for one.
use dataporch.Prelude.{
  ℕ, ◌≡◌, refl, true, [], ◌∷◌, ◌++◌, Option, none, some, if◌then◌else◌, leb, length, arith,
  length-append,
}
use dataporch.Text.{Text, bytes}
use dataporch.Text.Decimal.{digits}
use dataporch.Fault.{ok, background}
use dataporch.Execution.Types.{RelationalQueryResult}
use dataporch.Postgres.Budget.{
  Marshal, encoded_row_size, fits, fits_additional_row, retain_row, consume, consume_value,
  consume_values,
}
use dataporch.Postgres.Rows.{
  Rows, Limits, RawRow, query_columns, new_budget, finish, admit_row, append_row, read_loop,
  read_rows, read_result,
}
use dataporch.Postgres.Rows.Encoding.{Quoting, IsMarshal, encode_row, encoded_row_size_lem}
use dataporch.Postgres.Rows.Prefix.{IsPrefix, read_result-IsPrefix}
use dataporch.Postgres.Rows.Bounds.{IsBounded, read_result-IsBounded}

-- Texts with no byte that JSON escapes.
abbrev quoting : Quoting
quoting = record { quote = λ t. b'"' ∷ (t ++ b'"' ∷ []); column_list = λ cs. bytes "[]" }

abbrev pub marshal : Marshal
marshal = record { text = λ t. ok (quoting.quote t); columns = λ cs. ok (quoting.column_list cs) }

marshal-IsMarshal : IsMarshal marshal quoting
marshal-IsMarshal = record {
  text_total = λ t. refl;
  columns_total = λ cs. refl;
  longer = λ t. omega (arith, length-append t (b'"' ∷ []));
}

abbrev row : RawRow
row = some (bytes "1") ∷ none ∷ []

encoded_row_size_lem_example :
    encoded_row_size marshal row 80
    ≡ ok (
        if leb (length (encode_row quoting row)) 80
        then some (length (encode_row quoting row))
        else none)
encoded_row_size_lem_example = encoded_row_size_lem marshal quoting marshal-IsMarshal row 80

abbrev pub limits : Limits
limits = record { byte_limit = 200; truncate = true; row_limit = 1 }

abbrev pub rows : Rows
rows = record {
  fields =
      record { name = bytes "n"; type_oid = 23 } ∷ record { name = bytes "m"; type_oid = 5 } ∷ [];
  raw_rows = row ∷ row ∷ [];
  terminal = none;
}

abbrev pub type_names : ℕ → Option Text
type_names n = some (bytes "int4")

abbrev pub result : RelationalQueryResult
result = record {
  kind = bytes "postgres";
  source_id = bytes "sales";
  columns =
      record { name = bytes "n"; database_type = bytes "int4" }
      ∷ record { name = bytes "m"; database_type = bytes "int4" }
      ∷ [];
  rows = row ∷ [];
  row_count = 1;
  truncated = true;
}

was_read :
    read_result marshal limits type_names background (bytes "postgres") (bytes "sales") rows
    ≡ ok result
unfolding read_result read_rows read_loop new_budget finish admit_row append_row query_columns
    encoded_row_size fits fits_additional_row retain_row consume consume_value consume_values digits
was_read = refl

read_result-IsPrefix_example : (rows.terminal ≡ none) × IsPrefix limits rows.raw_rows result
read_result-IsPrefix_example =
    read_result-IsPrefix marshal limits type_names background (bytes "postgres") (bytes "sales")
      rows result was_read

read_result-IsBounded_example : IsBounded limits quoting result
read_result-IsBounded_example =
    read_result-IsBounded marshal quoting marshal-IsMarshal limits type_names background
      (bytes "postgres") (bytes "sales") rows result was_read
