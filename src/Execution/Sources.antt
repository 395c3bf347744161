-- ===== src/Execution/Sources.antt =====
-- `ListDataSources` of internal/execution/discovery_service.go. `strings.ToLower` is a parameter,
-- since its table of letters is package unicode's.
pub mod Client
pub mod Pages
use dataporch.Prelude.{
  ℕ, Bool, true, false, not, ◌&&◌, ◌||◌, List, [], ◌∷◌, ◌++◌, Option, none, some, if◌then◌else◌,
  ltb, length, take, drop, pos,
}
use dataporch.Text.{Text, bytes, same, before, contains}
use dataporch.Fault.{Fault, Result, ok, err, ◌>>=◌, ◌>>◌, Context, later}
use dataporch.Access
use dataporch.Assoc.{lookup}
use dataporch.Sort.{sort, search_index}
use dataporch.Connection.Definition.{Definition}
use dataporch.Execution.Cursor.{Codec, CursorRequest, encode_cursor, decode_cursor}
use dataporch.Execution.Types.{
  Capability, relational_database, DataSource, ListDataSourcesRequest, ListDataSourcesResult,
}
use dataporch.Execution.Service.{Service, validate_context, effective_limit, authorized}

unfoldable pub describe : Service → Definition → DataSource
describe s d = record {
  id = d.id;
  kind = d.kind;
  capabilities = elim (lookup d.kind s.relational) [
    | none ↦ []
    | some a ↦ relational_database ∷ []
  ];
}

abbrev pub source_id : DataSource → Text
source_id x = x.id

-- `sources[index]` in the test of `sort.Search`, which asks for indices in range only.
unfoldable pub beyond : Text → List DataSource → ℕ → Bool
beyond position [] i = false
beyond position (x ∷ xs) ℕ.zero = before position x.id
beyond position (x ∷ xs) (ℕ.suc i) = beyond position xs i

unfoldable pub last_id : List DataSource → Option Text
last_id [] = none
last_id (x ∷ []) = some x.id
last_id (x ∷ y ∷ xs) = last_id (y ∷ xs)

unfoldable pub sources_cursor : ListDataSourcesRequest → ℕ → CursorRequest
sources_cursor request limit = record {
  operation = bytes "data_source.list";
  source_id = [];
  schema = [];
  table = [];
  limit = limit;
  search = request.search;
  include_descriptions = false;
}

-- The slice that starts after the cursor's position.
unfoldable pub resume : Text → Text → List DataSource → List DataSource
resume [] position sources = sources
resume (b ∷ cursor) position sources =
    drop (search_index (length sources) (beyond position sources)) sources

module _ (c : Codec) (to_lower : Text → Text) where
  -- The loop over the definitions.
  unfoldable pub matching : Service → Text → List Definition → List DataSource
  matching s search [] = []
  matching s search (d ∷ rest) =
      let found = matching s search rest in
      let wanted = to_lower search in
      if not (same wanted []) && not (contains (to_lower d.id) wanted)
      then found
      else describe s d ∷ found

  unfoldable pub page_sources : CursorRequest → ℕ → List DataSource → Result ListDataSourcesResult
  page_sources request limit sources =
      if ltb limit (length sources)
      then elim (last_id (take limit sources)) [
        | none ↦ ok (record { sources = take limit sources; next_cursor = [] })
        | some id ↦ do
          next ← encode_cursor c request id (pos 0)
          ok (record { sources = take limit sources; next_cursor = next })
      ]
      else ok (record { sources = sources; next_cursor = [] })

  unfoldable pub list_data_sources :
      Service → Context → ListDataSourcesRequest → Result ListDataSourcesResult
  list_data_sources s ctx request = do
    validate_context ctx
    limit ← effective_limit s request.limit
    payload ← decode_cursor c request.cursor (sources_cursor request limit) false
    authorized s (later ctx)
        (record { action = Access.list_data_sources; kind = []; source_id = [] })
    let sources = sort source_id (matching s request.search s.sources.list)
    page_sources (sources_cursor request limit) limit
        (resume request.cursor payload.last_name sources)
