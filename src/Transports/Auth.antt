-- ===== src/Transports/Auth.antt =====
-- internal/transports/mcpauth/handler.go, internal/transports/localmcp/auth.go and
-- internal/mcpcontrol/token.go: who reaches the MCP endpoint.
pub mod Laws
use dataporch.Prelude.{
  ℕ, Bool, true, false, not, ◌||◌, ◌&&◌, List, [], ◌∷◌, ◌++◌, Option, none, some, if◌then◌else◌,
  ◌==◌, length,
}
use dataporch.Text.{Text, bytes, same}
use dataporch.Text.Words.{fields}
use dataporch.Text.Base64
use dataporch.Fault.{
  Fault, Checked, Result, ok, err, wraps, is, require, ◌>>=◌, ◌>>◌, invalid_token, no_token,
  invalid_credential,
}

-- What a handler does with a request: hand it on, or answer 401 with a challenge, or 503.
pub data Outcome : Type 0 where
  served : Outcome
  unauthorized : Text → Outcome
  unavailable : Outcome

abbrev pub invalid_request_challenge : Text
invalid_request_challenge = bytes "Bearer error=\"invalid_request\""

-- The credential, or the challenge.
pub data Bearer : Type 0 where
  credential : Text → Bearer
  challenge : Text → Bearer

-- `strings.EqualFold`.
module _ (equal_fold : Text → Text → Bool) where
  unfoldable pub bearer_parts : List Text → Bearer
  bearer_parts (scheme ∷ value ∷ []) =
      if equal_fold scheme (bytes "Bearer")
      then credential value
      else challenge invalid_request_challenge
  bearer_parts _ = challenge invalid_request_challenge

  -- `BearerCredential`, on the values of the header Authorization.
  unfoldable pub bearer_credential : List Text → Bearer
  bearer_credential [] = challenge (bytes "Bearer")
  bearer_credential (value ∷ []) = bearer_parts (fields value)
  bearer_credential (value ∷ other ∷ rest) = challenge invalid_request_challenge

  -- The handler that `New` makes.
  unfoldable pub handle : (Text → Checked) → List Text → Outcome
  handle verify values = elim (bearer_credential values) [
    | challenge c ↦ unauthorized c
    | credential token ↦ elim (verify token) [
      | ok u ↦ served
      | err e ↦
          if is e invalid_token || is e no_token
          then unauthorized (bytes "Bearer error=\"invalid_token\"")
          else unavailable
    ]
  ]

  -- `authenticatedHandler`.
  unfoldable pub handle_local : (Text → Text → Checked) → Text → List Text → Outcome
  handle_local verify expected values = elim (bearer_credential values) [
    | challenge c ↦ unauthorized c
    | credential presented ↦ elim (verify expected presented) [
      | ok u ↦ served
      | err e ↦ unauthorized (bytes "Bearer error=\"invalid_token\"")
    ]
  ]

abbrev pub credential_bytes : ℕ
credential_bytes = 32

-- `Generate`, on the random bytes that `io.ReadFull` fills, if it can.
unfoldable pub generate : Option Text → Result Text
generate none = err []
generate (some raw) = ok (Base64.encode raw)

unfoldable pub validate : Text → Checked
validate presented = elim (Base64.decode presented) [
  | none ↦ err (wraps invalid_credential)
  | some raw ↦
      require (length raw == credential_bytes && same (Base64.encode raw) presented)
        (wraps invalid_credential)
]

-- The bytes of a credential; an error leaves what `DecodeString` has read.
abbrev pub raw_of : Text → Text
raw_of t = elim (Base64.decode t) [ none ↦ [] | some raw ↦ raw ]

unfoldable pub verify : Text → Text → Checked
verify expected presented = do
  validate expected
  validate presented
  require (same (raw_of expected) (raw_of presented)) (wraps invalid_credential)
