-- ===== src/Transports/Origin/Laws.antt =====
-- Which requests of a browser get past internal/transports/mcp/origin.go.
use dataporch.Prelude.{
  ◌≡◌, refl, ◌⊎◌, inl, inr, Bool, true, false, List, [], ◌∷◌, Option, some, arith, Option-cases,
  Bool-cases, ◌≢◌, ◌++◌, none, if◌then◌else◌,
}
use dataporch.Assoc.{Distinct, lookup, lookup-remove}
use dataporch.Text.{Text, bytes, same, same_iff, contains_byte}
use dataporch.Fault.{ok, Checked}
use dataporch.Transports.Origin.{
  Url, Request, header_values, to_check, ends_in_colon, let_through, is_origin_url,
  is_serialized_http_origin, validate_origin,
}

-- An origin as the fetch standard serializes it: a scheme of the web and a host whose port is not
-- left empty, without a user, a path, a query, not even an empty one, or a fragment.
abbrev pub IsOrigin : (Text → Text → Bool) → Text → Url → Type 0
IsOrigin equal_fold value o =
    ((equal_fold o.scheme (bytes "http") ≡ true) ⊎ (equal_fold o.scheme (bytes "https") ≡ true))
    × (contains_byte b'?' value ≡ false)
    × (contains_byte b'#' value ≡ false)
    × (o.force_query ≡ false)
    × (o.raw_query ≡ [])
    × (o.fragment ≡ [])
    × (o.host ≢ [])
    × ((name : Text) → o.host ≢ name ++ b':' ∷ [])
    × (o.has_user ≡ false)
    × (o.path ≡ [])
    × (o.opaque ≡ [])

List-cases : (l : List Text) → (l ≡ []) ⊎ ((x : Text) × (rest : List Text) × (l ≡ x ∷ rest))
List-cases [] = inl refl
List-cases (x ∷ rest) = inr (x, rest, refl)

ends_in_colon-append : (name : Text) → ends_in_colon (name ++ b':' ∷ []) ≡ true
unfolding ends_in_colon
ends_in_colon-append [] = refl
ends_in_colon-append (x ∷ []) = refl
ends_in_colon-append (x ∷ y ∷ name) = ends_in_colon-append (y ∷ name)

module _ (equal_fold : Text → Text → Bool) (parse : Text → Option Url) where
  is_origin_url-IsOrigin :
      (value : Text) (o : Url)
      → is_origin_url equal_fold parse value o ≡ true
      → IsOrigin equal_fold value o
  unfolding is_origin_url
  is_origin_url-IsOrigin value o h =
      let closed : ends_in_colon o.host ≡ false = ground (arith, h) in
      (
        ground (arith, h),
        ground (arith, h),
        ground (arith, h),
        ground (arith, h),
        (same_iff o.raw_query []).0 (ground (arith, h)),
        (same_iff o.fragment []).0 (ground (arith, h)),
        λ q. ground (arith, h, q, same_iff o.host []),
        λ name q. ground (arith, closed, q, ends_in_colon-append name),
        ground (arith, h),
        (same_iff o.path []).0 (ground (arith, h)),
        (same_iff o.opaque []).0 (ground (arith, h)),
      )

  -- A request is handed on only if it carries no origin, as requests that do not come from a browser, or
  -- a single one that parses as a serialized origin, and if then the protection against cross-origin
  -- requests lets the same request pass as a POST without Sec-Fetch-Site, so that neither a safe method
  -- nor that header can decide. The header holds each name once.
  pub validate_origin-let_through :
      (check : Request → Checked) (r : Request)
      → Distinct r.header
      → validate_origin equal_fold parse check r ≡ let_through
      → (header_values (bytes "Origin") r ≡ [])
        ⊎ ((value : Text) × (o : Url) × (q : Request) × (header_values (bytes "Origin") r
              ≡ value ∷ [])
            × (parse value ≡ some o)
            × IsOrigin equal_fold value o
            × (check q ≡ ok tt)
            × (q.method ≡ bytes "POST")
            × ((name : Text)
                → lookup name q.header
                  ≡ (if same (bytes "Sec-Fetch-Site") name then none else lookup name r.header)))
  unfolding validate_origin is_serialized_http_origin
  validate_origin-let_through check r d h = elim (List-cases (header_values (bytes "Origin") r)) [
    | inl q ↦ inl q
    | inr (value, [], q) ↦ elim (Option-cases (parse value)) [
      | inl k ↦ absurd (ground (arith, q, k, h))
      | inr (o, k) ↦ elim (Bool-cases (is_origin_url equal_fold parse value o)) [
        | inr l ↦ absurd (ground (arith, q, k, l, h))
        | inl l ↦ inr (
          value,
          o,
          to_check r,
          q,
          k,
          is_origin_url-IsOrigin value o l,
          ground (arith, q, k, l, h),
          refl,
          λ name. lookup-remove (bytes "Sec-Fetch-Site") name r.header d,
        )
      ]
    ]
    | inr (value, other ∷ rest, q) ↦ absurd (ground (arith, q, h))
  ]
