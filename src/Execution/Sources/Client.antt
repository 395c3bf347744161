-- ===== src/Execution/Sources/Client.antt =====
-- A client of `ListDataSources` of internal/execution/discovery_service.go, and what it is promised.
use dataporch.Prelude.{ℕ, zero, suc, ◌≡◌, List, [], ◌++◌, Option, if◌then◌else◌, ℤ, All}
use dataporch.Text.{Text, same}
use dataporch.Fault.{Result, ok, err, ◌>>=◌, background}
use dataporch.Access
use dataporch.Sort.{sort, DistinctBy}
use dataporch.Connection.Definition.{Definition}
use dataporch.Connection.Definition.Laws.{IsId}
use dataporch.Execution.Cursor.{Codec}
use dataporch.Execution.Types.{DataSource}
use dataporch.Execution.Service.{Service}
use dataporch.Execution.Sources.{source_id, matching, list_data_sources}

module _ (c : Codec) (to_lower : Text → Text) (s : Service) (search : Text) (limit : Option ℤ) where
  -- A client that asks for a page, then for the page of each cursor that it is handed.
  unfoldable pub collect : ℕ → Text → Result (List DataSource)
  collect zero cursor = err []
  collect (suc fuel) cursor = do
    page ←
        list_data_sources c to_lower s background
          (record { search = search; limit = limit; cursor = cursor })
    let more = collect fuel page.next_cursor
    if same page.next_cursor [] then ok page.sources else more >>= λ xs. ok (page.sources ++ xs)

-- The registry lists valid identifiers, each once.
pub record IsRegistry (ds : List Definition) : Type 0 where
  pub valid : All (λ d. IsId d.id) ds
  pub distinct : DistinctBy (λ d. d.id) ds

-- The authorizer lets the listing happen.
abbrev pub IsAllowed : Service → Type 0
IsAllowed s =
    s.authorizer background
      (record { action = Access.list_data_sources; kind = []; source_id = [] })
    ≡ ok tt

-- All the sources that match a search, in order.
abbrev pub sources_of : Codec → (Text → Text) → Service → Text → List DataSource
sources_of c to_lower s search = sort source_id (matching c to_lower s search s.sources.list)
