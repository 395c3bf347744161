-- ===== src/Tests/Handlers.antt =====
-- Requests at the MCP endpoint: with a token, with a local credential, and from a browser.
use dataporch.Transports.Origin.{ends_in_colon}
use dataporch.Transports.Origin.{is_origin_url}
use dataporch.Transports.Origin.{is_serialized_http_origin}
use dataporch.Prelude.{
  ◌≡◌, ◌↔◌, ◌⊎◌, refl, false, List, [], ◌∷◌, Option, none, some, arith, if◌then◌else◌,
}
use dataporch.Text.{Text, bytes, same, contains_byte}
use dataporch.Text.Base64
use dataporch.Fault.{ok, err, Checked}
use dataporch.Assoc.{lookup}
use dataporch.Token
use dataporch.Token.History.{run}
use dataporch.Transports.Auth.{served, handle, handle_local, generate, verify}
use dataporch.Transports.Auth.Laws.{Presents, handle-run, handle_local-generate}
use dataporch.Transports.Origin.{let_through, Url, Request, header_values, validate_origin}
use dataporch.Transports.Origin.Laws.{IsOrigin, validate_origin-let_through}
use dataporch.Tests.Tokens.{one_slot, digest, fresh, calls, fresh_inactive}

abbrev header : List Text
header = bytes "Bearer dp-YWJj" ∷ []

handle-run_example :
    (handle same
        (λ t. Token.verify digest one_slot t (run digest one_slot calls none fresh none).1.0)
        header
      ≡ served)
    ↔ ((token : Text) × (c : Text) × Presents same header token
        × ((run digest one_slot calls none fresh none).0 ≡ some c)
        × (digest token ≡ digest c))
handle-run_example = handle-run same digest one_slot calls fresh none header fresh_inactive

abbrev raw : Text
raw = bytes "0123456789abcdef0123456789abcdef"

abbrev made : Text
made = Base64.encode raw

generated : generate (some raw) ≡ ok made
unfolding generate
generated = refl

handle_local-generate_example :
    (handle_local same verify made header ≡ served) ↔ Presents same header made
handle_local-generate_example =
    handle_local-generate same raw made header (omega arith) refl generated

abbrev parsed : Url
parsed = record {
  scheme = bytes "https";
  opaque = [];
  has_user = false;
  host = bytes "example.com";
  path = [];
  force_query = false;
  raw_query = [];
  fragment = [];
}

abbrev parse : Text → Option Url
parse t = some parsed

abbrev origin : Text
origin = bytes "https://example.com"

abbrev browser : Request
browser = record {
  method = bytes "GET";
  header = (bytes "Origin", origin ∷ []) ∷ (bytes "Sec-Fetch-Site", bytes "same-origin" ∷ []) ∷ [];
}

-- It lets every POST pass.
abbrev lets_pass : Request → Checked
lets_pass r = if same r.method (bytes "POST") then ok tt else err []

passes : validate_origin same parse lets_pass browser ≡ let_through
unfolding validate_origin is_serialized_http_origin is_origin_url same contains_byte ends_in_colon
    lookup
passes = refl

validate_origin-let_through_example :
    (header_values (bytes "Origin") browser ≡ [])
    ⊎ ((value : Text) × (o : Url) × (q : Request) × (header_values (bytes "Origin") browser
          ≡ value ∷ [])
        × (parse value ≡ some o)
        × IsOrigin same value o
        × (lets_pass q ≡ ok tt)
        × (q.method ≡ bytes "POST")
        × ((name : Text)
            → lookup name q.header
              ≡ (if same (bytes "Sec-Fetch-Site") name then none else lookup name browser.header)))
unfolding lookup same
validate_origin-let_through_example =
    validate_origin-let_through same parse lets_pass browser (refl, (refl, tt)) passes
