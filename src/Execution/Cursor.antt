-- ===== src/Execution/Cursor.antt =====
-- internal/execution/cursor.go: opaque page cursors, which carry a fingerprint of the request.
-- What packages encoding/json and crypto/sha256 compute is a parameter.
pub mod Laws
use dataporch.Prelude.{
  ℕ, ◌+◌, ◌*◌, ◌≤◌, ◌<◌, ◌≡◌, Bool, true, false, not, ◌&&◌, ◌||◌, List, [], ◌∷◌, Option, none, some,
  if◌then◌else◌, ltb, leb, ◌==◌, length, take, ℤ, pos, negsuc,
}
use dataporch.Text.{Text, bytes, same}
use dataporch.Text.Base64.{IsBytes}
use dataporch.Text.Base64
use dataporch.Text.Hex
use dataporch.Text.Utf8.{valid_string}
use dataporch.Fault.{
  Fault, Result, ok, err, wraps, invalid_cursor, ◌>>=◌, ◌>>◌, require, or_fail, or_else,
}

pub record CursorRequest : Type 0 where
  pub operation : Text
  pub source_id : Text
  pub schema : Text
  pub table : Text
  pub limit : ℕ
  pub search : Text
  pub include_descriptions : Bool

pub record CursorPayload : Type 0 where
  pub version : ℤ
  pub fingerprint : Text
  pub last_name : Text
  pub last_ordinal : ℤ

-- `json.Marshal` of the two records, `sha256.Sum256`, and a `json.Decoder` that disallows unknown
-- fields: the value that the first `Decode` reads with the rest of the input, and whether the
-- second `Decode` then meets the end.
pub record Codec : Type 0 where
  pub marshal_request : CursorRequest → Result Text
  pub marshal_payload : CursorPayload → Result Text
  pub decode_payload : Text → Option (CursorPayload × Text)
  pub at_end : Text → Bool
  pub sum256 : Text → Text

abbrev pub cursor_version : ℤ
cursor_version = pos 1

abbrev pub no_payload : CursorPayload
no_payload = record { version = pos 0; fingerprint = []; last_name = []; last_ordinal = pos 0 }

module _ (c : Codec) where
  unfoldable pub request_fingerprint : CursorRequest → Result Text
  request_fingerprint request = do
    encoded ← c.marshal_request request
    ok (Hex.encode (c.sum256 encoded))

  unfoldable pub encode_cursor : CursorRequest → Text → ℤ → Result Text
  encode_cursor request last_name last_ordinal = do
    fingerprint ← request_fingerprint request
    encoded ← c.marshal_payload (record {
      version = cursor_version;
      fingerprint = fingerprint;
      last_name = last_name;
      last_ordinal = last_ordinal;
    })
    ok (Base64.encode encoded)

abbrev pub is_version : ℤ → Bool
is_version (pos n) = n == 1
is_version (negsuc n) = false

abbrev pub is_zero : ℤ → Bool
is_zero (pos n) = n == 0
is_zero (negsuc n) = false

abbrev pub is_positive : ℤ → Bool
is_positive (pos n) = ltb 0 n
is_positive (negsuc n) = false

-- A column cursor has an ordinal and no name, any other a name and no ordinal.
unfoldable pub has_shape : Bool → CursorPayload → Bool
has_shape ordinal p = not (
    ordinal && (not (is_positive p.last_ordinal) || not (same p.last_name []))
    || not ordinal && (same p.last_name [] || not (is_zero p.last_ordinal)))

module _ (c : Codec) where
  -- What `decodeCursor` asks of a payload that it has read.
  unfoldable pub check_payload : CursorRequest → Bool → CursorPayload → Result CursorPayload
  check_payload request ordinal payload = do
    require (is_version payload.version && length payload.fingerprint == 64) (wraps invalid_cursor)
    require (Hex.decodes payload.fingerprint) (wraps invalid_cursor)
    require (has_shape ordinal payload) (wraps invalid_cursor)
    fingerprint ← or_else (request_fingerprint c request) (λ e. wraps invalid_cursor)
    require (same fingerprint payload.fingerprint) (wraps invalid_cursor)
    ok payload

  -- The branch of `decodeCursor` for a cursor that is not empty.
  unfoldable pub decode_present : Text → CursorRequest → Bool → Result CursorPayload
  decode_present value request ordinal = do
    require (leb (length value) 8192) (wraps invalid_cursor)
    decoded ← or_fail (Base64.decode value) (wraps invalid_cursor)
    require (leb (length decoded) 4096) (wraps invalid_cursor)
    (payload, rest) ← or_fail (c.decode_payload (take 4097 decoded)) (wraps invalid_cursor)
    require (c.at_end rest) (wraps invalid_cursor)
    check_payload request ordinal payload

  unfoldable pub decode_cursor : Text → CursorRequest → Bool → Result CursorPayload
  decode_cursor [] request ordinal = ok no_payload
  decode_cursor (b ∷ rest) request ordinal = decode_present (b ∷ rest) request ordinal
