-- ===== src/Tests/Codecs.antt =====
-- A codec that the laws hold of: a text is written as its bytes, each after a 1, and a closing 0.
use dataporch.Prelude.{
  zero, suc, ◌+◌, ◌*◌, ◌≡◌, ◌≢◌, refl, true, false, [], ◌∷◌, ◌++◌, Option, none, some, length,
  length-append, arith, pos, subst,
}
use mathlib.Core.List.{append-nil}
use dataporch.Text.{Text, bytes, same}
use dataporch.Text.Base64
use dataporch.Text.Hex
use dataporch.Text.Base64.{IsBytes}
use dataporch.Text.Utf8.{valid_string}
use dataporch.Fault.{ok}
use dataporch.Execution.Cursor.{
  Codec, CursorRequest, CursorPayload, encode_cursor, decode_cursor, decode_present, check_payload,
  has_shape, is_version, request_fingerprint,
}
use dataporch.Execution.Cursor.Laws.{
  IsPosition, IsCodec, name_payload, decode-encode, decode_present-bound,
}

abbrev write : Text → Text
write [] = 0 ∷ []
write (b ∷ t) = 1 ∷ b ∷ write t

abbrev read : Text → Option (Text × Text)
read [] = none
read (zero ∷ rest) = some ([], rest)
read (suc n ∷ []) = none
read (suc n ∷ b ∷ rest) = elim (read rest) [ none ↦ none | some (t, left) ↦ some (b ∷ t, left) ]

abbrev read_payload : Text → Option (CursorPayload × Text)
read_payload t = elim (read t) [
  | none ↦ none
  | some (f, rest) ↦ elim (read rest) [
    | none ↦ none
    | some (n, left) ↦ some (name_payload f n, left)
  ]
]

abbrev pub plain : Codec
plain = record {
  marshal_request = λ r. ok (write r.operation ++ write r.search);
  marshal_payload = λ p. ok (write p.fingerprint ++ write p.last_name);
  decode_payload = read_payload;
  at_end = λ t. elim t [ [] ↦ true | b ∷ rest ↦ false ];
  sum256 = λ t.
      7 ∷ 7 ∷ 7 ∷ 7 ∷ 7 ∷ 7 ∷ 7 ∷ 7 ∷ 7 ∷ 7 ∷ 7 ∷ 7 ∷ 7 ∷ 7 ∷ 7 ∷ 7 ∷ 7 ∷ 7 ∷ 7 ∷ 7 ∷ 7 ∷ 7 ∷ 7 ∷ 7
      ∷ 7 ∷ 7 ∷ 7 ∷ 7 ∷ 7 ∷ 7 ∷ 7 ∷ 7 ∷ [];
}

read-write : (t rest : Text) → read (write t ++ rest) ≡ some (t, rest)
read-write [] rest = refl
read-write (b ∷ t) rest = rw (read-write t rest)

length-write : (t : Text) → length (write t) ≡ 2 * length t + 1
length-write [] = refl
length-write (b ∷ t) = omega (arith, length-write t)

write-IsBytes : (t rest : Text) → IsBytes t → IsBytes rest → IsBytes (write t ++ rest)
write-IsBytes [] rest h k = (omega arith, k)
write-IsBytes (b ∷ t) rest h k = (omega arith, (h.0, write-IsBytes t rest h.1 k))

write-cons : (t rest : Text) → write t ++ rest ≢ []
write-cons [] rest h = cc
write-cons (b ∷ t) rest h = cc

read-write_end : (t : Text) → read (write t) ≡ some (t, [])
read-write_end t = rw (append-nil (write t)) at (read-write t [])

read_payload-write : (f n : Text) → read_payload (write f ++ write n) ≡ some (name_payload f n, [])
read_payload-write f n = rw (read-write f (write n), read_payload) (rw (read-write_end n) refl)

pub plain-IsCodec : IsCodec plain
plain-IsCodec = record {
  sum_length = λ t. refl;
  sum_bytes = λ t. ground arith;
  request_total = λ r. (write r.operation ++ write r.search, refl);
  payload_total = λ f n vf vn bn bf. (
    write f ++ write n,
    refl,
    read_payload-write f n,
    write-IsBytes f (write n) bf (subst IsBytes (append-nil (write n)) (write-IsBytes n [] bn tt)),
    write-cons f (write n),
    omega (arith, length-append (write f) (write n), length-write f, length-write n),
  );
  end_of_input = refl;
}

abbrev pub issued_for : CursorRequest
issued_for = record {
  operation = bytes "list_data_sources";
  source_id = [];
  schema = [];
  table = [];
  limit = 2;
  search = [];
  include_descriptions = false;
}

decode-encode_example :
    (cursor : Text) × (f : Text) × (encode_cursor plain issued_for (bytes "db") (pos 0) ≡ ok cursor)
    × (cursor ≢ [])
    × (decode_cursor plain cursor issued_for false ≡ ok (name_payload f (bytes "db")))
unfolding valid_string
decode-encode_example =
    decode-encode plain plain-IsCodec issued_for (bytes "db") (omega arith) (omega arith)
      (omega arith, (omega arith, tt)) refl

abbrev pub digest : Text
digest = bytes "0707070707070707070707070707070707070707070707070707070707070707"

abbrev pub second_page : Text
second_page = Base64.encode (write digest ++ write (bytes "db"))

decoded : decode_present plain second_page issued_for false ≡ ok (name_payload digest (bytes "db"))
unfolding decode_present check_payload request_fingerprint has_shape Base64.encode Base64.decode
    Hex.encode Hex.decodes same
decoded = refl

decode_present-bound_example :
    (request_fingerprint plain issued_for ≡ ok digest)
    × IsPosition false (name_payload digest (bytes "db"))
    × (is_version (pos 1) ≡ true)
decode_present-bound_example =
    decode_present-bound plain second_page issued_for false (name_payload digest (bytes "db"))
      decoded
