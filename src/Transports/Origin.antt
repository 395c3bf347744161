-- ===== src/Transports/Origin.antt =====
-- internal/transports/mcp/origin.go: which origins of a browser may call.
pub mod Laws
use dataporch.Prelude.{
  ℕ, Bool, true, false, not, ◌||◌, ◌&&◌, List, [], ◌∷◌, Option, none, some, if◌then◌else◌, ◌==◌,
  any,
}
use dataporch.Text.{Text, bytes, same, contains_byte}
use dataporch.Assoc.{Assoc, lookup, remove}
use dataporch.Fault.{Result, ok, err, Checked}

-- `url.URL`, the fields that the code reads.
pub record Url : Type 0 where
  pub scheme : Text
  pub opaque : Text
  pub has_user : Bool
  pub host : Text
  pub path : Text
  pub force_query : Bool
  pub raw_query : Text
  pub fragment : Text

-- `http.Request`: its method, and its header by canonical names.
pub record Request : Type 0 where
  pub method : Text
  pub header : Assoc (List Text)

-- `Header.Values`.
abbrev pub header_values : Text → Request → List Text
header_values name r = elim (lookup name r.header) [ none ↦ [] | some values ↦ values ]

-- `checkRequest`.
abbrev pub to_check : Request → Request
to_check r = record { method = bytes "POST"; header = remove (bytes "Sec-Fetch-Site") r.header }

abbrev is_nothing : List Text → Bool
is_nothing [] = true
is_nothing (x ∷ rest) = false

pub data Answer : Type 0 where
  let_through forbidden : Answer

-- `strings.HasSuffix(text, ":")`.
unfoldable pub ends_in_colon : Text → Bool
ends_in_colon [] = false
ends_in_colon (b ∷ []) = b == b':'
ends_in_colon (b ∷ c ∷ rest) = ends_in_colon (c ∷ rest)

-- With `strings.EqualFold` and `url.Parse`.
module _ (equal_fold : Text → Text → Bool) (parse : Text → Option Url) where
  unfoldable pub is_origin_url : Text → Url → Bool
  is_origin_url value o =
      (equal_fold o.scheme (bytes "http") || equal_fold o.scheme (bytes "https"))
      && (not (contains_byte b'?' value || contains_byte b'#' value)
          && not o.force_query
          && same o.raw_query []
          && same o.fragment [])
      && ((not (same o.host []) && not (ends_in_colon o.host))
          && not o.has_user
          && same o.path []
          && same o.opaque [])

  unfoldable pub is_serialized_http_origin : Text → Bool
  is_serialized_http_origin value = elim (parse value) [
    | none ↦ false
    | some o ↦ is_origin_url value o
  ]

  -- The handler of `withOriginValidation`; `check` is `Check` of the protection.
  unfoldable pub validate_origin : (Request → Checked) → Request → Answer
  validate_origin check r = elim (header_values (bytes "Origin") r) [
    | [] ↦ let_through
    | value ∷ others ↦
        if is_nothing others && is_serialized_http_origin value
        then elim (check (to_check r)) [ ok u ↦ let_through | err e ↦ forbidden ]
        else forbidden
  ]
