-- ===== src/Execution/Cursor/Laws.antt =====
-- The cursors of internal/execution/cursor.go: a cursor of a name is read back under its request, and
-- what is read has the request's fingerprint and the shape of its kind.
use dataporch.Prelude.{
  ℕ, ◌+◌, ◌*◌, ◌≤◌, ◌<◌, ◌≡◌, ◌≢◌, refl, ◌∙◌, inl, inr, Bool, true, false, [], ◌∷◌, some, leb,
  le→leb, length, take, ℤ, pos, negsuc, ap, subst, arith,
}
use dataporch.Text.{Text, same, same_iff, same_self}
use dataporch.Text.Base64.{IsBytes, ascii-IsBytes}
use dataporch.Text.Base64
use dataporch.Text.Hex
use dataporch.Text.Utf8.{valid_string, valid_string-ascii}
use dataporch.Fault.{ok, wraps, invalid_cursor, require, or_fail, Result-cases, >>=-eq-ok}
use dataporch.Execution.Cursor.{
  Codec, CursorRequest, CursorPayload, cursor_version, request_fingerprint, encode_cursor,
  decode_cursor, decode_present, check_payload, has_shape, is_version, is_positive, is_zero,
}

-- The payload of a position that is a name.
abbrev pub name_payload : Text → Text → CursorPayload
name_payload fingerprint name = record {
  version = cursor_version;
  fingerprint = fingerprint;
  last_name = name;
  last_ordinal = pos 0;
}

-- The documented behaviour of the packages that the cursors rely on: a digest has 32 bytes, a
-- record of texts, numbers and flags has a JSON form, and that of a payload with valid UTF-8
-- decodes to it, with at most six bytes for a byte of text beside the field names.
pub record IsCodec (c : Codec) : Type 0 where
  pub sum_length : (t : Text) → length (c.sum256 t) ≡ 32
  pub sum_bytes : (t : Text) → IsBytes (c.sum256 t)
  pub request_total : (r : CursorRequest) → (t : Text) × (c.marshal_request r ≡ ok t)
  pub payload_total :
      (fingerprint name : Text)
      → valid_string fingerprint ≡ true
      → valid_string name ≡ true
      → IsBytes name
      → IsBytes fingerprint
      → (t : Text) × (c.marshal_payload (name_payload fingerprint name) ≡ ok t)
        × (c.decode_payload t ≡ some (name_payload fingerprint name, []))
        × IsBytes t
        × (t ≢ [])
        × (length t ≤ 6 * length name + (6 * length fingerprint + 128))
  pub end_of_input : c.at_end [] ≡ true

take-all : (n : ℕ) (t : Text) → length t ≤ n → take n t ≡ t
take-all ℕ.zero [] h = refl
take-all ℕ.zero (x ∷ t) h = absurd (omega arith)
take-all (ℕ.suc n) [] h = refl
take-all (ℕ.suc n) (x ∷ t) h = ground (arith, take-all n t)

encode-cons : (t : Text) → t ≢ [] → Base64.encode t ≢ []
unfolding Base64.encode
encode-cons [] h e = h refl
encode-cons (a ∷ []) h e = cc
encode-cons (a ∷ b ∷ []) h e = cc
encode-cons (a ∷ b ∷ d ∷ rest) h e = cc

decode_cursor-present :
    (c : Codec) (value : Text) (r : CursorRequest) (ordinal : Bool)
    → value ≢ []
    → decode_cursor c value r ordinal ≡ decode_present c value r ordinal
unfolding decode_cursor
decode_cursor-present c [] r ordinal h = absurd (h refl)
decode_cursor-present c (b ∷ rest) r ordinal h = refl

module _ (c : Codec) (law : IsCodec c) where
  check_issued :
      (r : CursorRequest) (f name : Text)
      → request_fingerprint c r ≡ ok f
      → length f ≡ 64
      → Hex.decodes f ≡ true
      → 0 < length name
      → check_payload c r false (name_payload f name) ≡ ok (name_payload f name)
  unfolding check_payload has_shape same
  check_issued r f [] issued size digits h = absurd (omega arith)
  check_issued r f (n ∷ ns) issued size digits h = ground (arith, same_self f)

  decode_issued :
      (r : CursorRequest) (f name t : Text)
      → request_fingerprint c r ≡ ok f
      → length f ≡ 64
      → Hex.decodes f ≡ true
      → 0 < length name
      → length t ≤ 4096
      → IsBytes t
      → c.decode_payload t ≡ some (name_payload f name, [])
      → decode_present c (Base64.encode t) r false ≡ ok (name_payload f name)
  unfolding decode_present
  decode_issued r f name t issued size digits h short ok_bytes read =
      rw
        (
          le→leb (length (Base64.encode t)) 8192 (omega (arith, Base64.length-encode t)),
          Base64.decode-encode t ok_bytes,
          le→leb (length t) 4096 short,
          take-all 4097 t (omega arith),
          read,
          law.end_of_input,
        )
        (check_issued r f name issued size digits h)

  fingerprint_lem :
      (r : CursorRequest)
      → (f : Text) × (request_fingerprint c r ≡ ok f)
        × (length f ≡ 64)
        × (Hex.decodes f ≡ true)
        × (valid_string f ≡ true)
        × IsBytes f
  unfolding request_fingerprint
  fingerprint_lem r =
      let t = law.request_total r in
      let b = law.sum_bytes t.0 in
      (
        Hex.encode (c.sum256 t.0),
        ground (arith, t.1),
        omega (arith, Hex.length-encode (c.sum256 t.0), law.sum_length t.0),
        Hex.decodes-encode (c.sum256 t.0) b,
        valid_string-ascii _ (Hex.encode-ascii (c.sum256 t.0) b),
        ascii-IsBytes _ (Hex.encode-ascii (c.sum256 t.0) b),
      )

  -- With a codec as the laws describe it: under the request that it was issued for, the cursor of a
  -- name of 1 to 512 bytes of valid UTF-8 decodes to that name.
  pub decode-encode :
      (r : CursorRequest) (name : Text)
      → 0 < length name
      → length name ≤ 512
      → IsBytes name
      → valid_string name ≡ true
      → (cursor : Text) × (f : Text) × (encode_cursor c r name (pos 0) ≡ ok cursor)
        × (cursor ≢ [])
        × (decode_cursor c cursor r false ≡ ok (name_payload f name))
  decode-encode r name h k b v =
      let (f, issued, size, digits, valid, f_bytes) = fingerprint_lem r in
      let (t, written, read, ok_bytes, some_bytes, short) =
        law.payload_total f name valid v b f_bytes in
      (
        Base64.encode t,
        f,
        unfold encode_cursor in ground (arith, issued, written),
        encode-cons t some_bytes,
        decode_cursor-present c (Base64.encode t) r false (encode-cons t some_bytes)
            ∙ decode_issued r f name t issued size digits h (omega (arith, short)) ok_bytes read,
      )

-- A position of its kind: of a column, an ordinal from 1 on and no name; of anything else, a name and no
-- ordinal.
abbrev pub IsPosition : Bool → CursorPayload → Type 0
IsPosition true p = ((n : ℕ) × (p.last_ordinal ≡ pos (ℕ.suc n))) × (p.last_name ≡ [])
IsPosition false p = (p.last_name ≢ []) × (p.last_ordinal ≡ pos 0)

ordinal_of : (z : ℤ) → is_positive z ≡ true → (n : ℕ) × (z ≡ pos (ℕ.suc n))
ordinal_of (pos ℕ.zero) h = absurd (ground (arith, h))
ordinal_of (pos (ℕ.suc n)) h = (n, refl)
ordinal_of (negsuc n) h = absurd (ground (arith, h))

zero_of : (z : ℤ) → is_zero z ≡ true → z ≡ pos 0
zero_of (pos n) h = ground (arith, h)
zero_of (negsuc n) h = absurd (ground (arith, h))

has_shape-IsPosition :
    (ordinal : Bool) (p : CursorPayload) → has_shape ordinal p ≡ true → IsPosition ordinal p
unfolding has_shape
has_shape-IsPosition true p h =
    (ordinal_of p.last_ordinal (ground (arith, h)), (same_iff p.last_name []).0 (ground (arith, h)))
has_shape-IsPosition false p h =
    (λ q. ground (arith, h, q, same_iff p.last_name []), zero_of p.last_ordinal (ground (arith, h)))

module _ (c : Codec) where
  check_payload-bound :
      (r : CursorRequest) (ordinal : Bool) (q p : CursorPayload)
      → check_payload c r ordinal q ≡ ok p
      → (request_fingerprint c r ≡ ok p.fingerprint)
        × IsPosition ordinal p
        × (is_version p.version ≡ true)
  unfolding check_payload
  check_payload-bound r ordinal q p h = elim (Result-cases (request_fingerprint c r)) [
    | inl (f, e) ↦
        let told : (q ≡ p)
            × (same f q.fingerprint ≡ true)
            × (has_shape ordinal q ≡ true)
            × (is_version q.version ≡ true) =
          ground (arith, e, h) in
        let named : f ≡ q.fingerprint = (same_iff f q.fingerprint).0 told.1 in
        subst
          (λ x.
            (request_fingerprint c r ≡ ok x.fingerprint)
            × IsPosition ordinal x
            × (is_version x.version ≡ true))
          told.0 (e ∙ ap ok named, has_shape-IsPosition ordinal q told.2, told.3)
    | inr (x, e) ↦ ground arith
  ]

  -- A cursor that is accepted names the fingerprint of the request, the version of the code, and a
  -- position of its kind: for columns an ordinal from 1 on and no name, for anything else a name and no
  -- ordinal.
  pub decode_present-bound :
      (value : Text) (r : CursorRequest) (ordinal : Bool) (p : CursorPayload)
      → decode_present c value r ordinal ≡ ok p
      → (request_fingerprint c r ≡ ok p.fingerprint)
        × IsPosition ordinal p
        × (is_version p.version ≡ true)
  unfolding decode_present
  decode_present-bound value r ordinal p h =
      let a = >>=-eq-ok (require (leb (length value) 8192) (wraps invalid_cursor)) _ h in
      let b = >>=-eq-ok (or_fail (Base64.decode value) (wraps invalid_cursor)) _ a.2 in
      let d = >>=-eq-ok (require (leb (length b.0) 4096) (wraps invalid_cursor)) _ b.2 in
      let e = >>=-eq-ok (or_fail (c.decode_payload (take 4097 b.0)) (wraps invalid_cursor)) _ d.2 in
      let f = >>=-eq-ok (require (c.at_end e.0.1) (wraps invalid_cursor)) _ e.2 in
      check_payload-bound r ordinal e.0.0 p f.2
