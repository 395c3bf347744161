-- ===== src/Token/Local/Laws.antt =====
-- What internal/mcptoken/local/store.go loads after it has saved or deleted.
use dataporch.Prelude.{
  All, subst, ℕ, ◌+◌, ◌*◌, ◌≤◌, ◌<◌, ◌≡◌, ◌≢◌, refl, ap, ◌∙◌, inl, inr, true, false, Option, none,
  some, length, [], ◌==◌, arith, Option-cases,
}
use dataporch.Text.{Text, same_self, same_iff}
use dataporch.Text.Base64
use dataporch.Fault.{◌>>◌, Checked, ok, Result-cases, Context, later, background}
use dataporch.AtomicFile.{Answers, Directory, replace, last_state, written_file}
use dataporch.AtomicFile.Laws.{replace-ok}
use dataporch.Token.{PersistedState}
use dataporch.Token.Local.{
  Removal, PersistedFile, Json, Calendar, valid_context, format_timestamp,
  format_optional_timestamp, parse_timestamp, parse_optional_timestamp, encode, check_file, decode,
  load_file, precedes, max_store_size, file_permission, load, save, delete,
}

abbrev pub length_of : Option Text → ℕ
length_of none = 0
length_of (some s) = length s

abbrev IsAscii : Text → Type 0
IsAscii = All (λ b. b < 0x80)

abbrev IsAsciiOption : Option Text → Type 0
IsAsciiOption none = Unit
IsAsciiOption (some s) = IsAscii s

-- Package encoding/json reads back what it writes of ASCII, and writes at most six bytes for each byte of the
-- fields and 100 for the rest.
pub record IsJson (json : Json) : Type 0 where
  pub read_back :
      (f : PersistedFile) (t : Text)
      → IsAscii f.verifier
      → IsAscii f.created_at
      → IsAsciiOption f.rotated_at
      → json.marshal f ≡ ok t
      → json.decode t ≡ some f
  pub bounded :
      (f : PersistedFile) (t : Text)
      → json.marshal f ≡ ok t
      → length t ≤ 100 + 6 * (length f.verifier + length f.created_at + length_of f.rotated_at)

-- Package time reads back what it writes for UTC in a year of four digits, which ends in Z and has at
-- most 64 bytes.
pub record IsCalendar (calendar : Calendar) : Type 0 where
  pub parse_format : (t : ℕ) → t < calendar.year_10000 → calendar.parse (calendar.format t) ≡ some t
  pub utc : (t : ℕ) → calendar.is_utc (calendar.format t) ≡ true
  pub ascii : (t : ℕ) → t < calendar.year_10000 → IsAscii (calendar.format t)
  pub not_empty : (t : ℕ) → calendar.format t ≢ []
  pub short : (t : ℕ) → t < calendar.year_10000 → length (calendar.format t) ≤ 64

-- A digest of SHA-256: 32 bytes.
abbrev pub IsDigest : Text → Type 0
IsDigest v = Base64.IsBytes v × (length v ≡ 32)

abbrev pub IsBefore : ℕ → Option ℕ → Type 0
IsBefore limit none = Unit
IsBefore limit (some t) = t < limit

module _ (json : Json) (calendar : Calendar) (j : IsJson json) (c : IsCalendar calendar) where
  parse_timestamp-format :
      (t : ℕ) (s : Text)
      → t < calendar.year_10000
      → format_timestamp json calendar t ≡ ok s
      → (parse_timestamp json calendar s ≡ ok t) × (length s ≤ 64) × IsAscii s
  unfolding format_timestamp parse_timestamp
  parse_timestamp-format t s k h =
      let written : calendar.format t ≡ s = ground (arith, h) in
      let non_zero : (t == 0) ≡ false = ground (arith, h) in
      subst (λ x. (parse_timestamp json calendar x ≡ ok t) × (length x ≤ 64) × IsAscii x) written
        (
          ground (
            arith,
            non_zero,
            c.parse_format t k,
            c.utc t,
            c.not_empty t,
            same_iff (calendar.format t) [],
          ),
          c.short t k,
          c.ascii t k,
        )

  parse_optional-format :
      (t : Option ℕ) (s : Option Text)
      → IsBefore calendar.year_10000 t
      → format_optional_timestamp json calendar t ≡ ok s
      → (parse_optional_timestamp json calendar s ≡ ok t) × (length_of s ≤ 64) × IsAsciiOption s
  unfolding format_optional_timestamp parse_optional_timestamp
  parse_optional-format none none k h = (refl, omega arith, tt)
  parse_optional-format none (some x) k h = absurd (ground (arith, h))
  parse_optional-format (some t) s k h = elim (Result-cases (format_timestamp json calendar t)) [
    | inr (e, q) ↦ absurd (ground (arith, q, h))
    | inl (x, q) ↦
        let written : some x ≡ s = ground (arith, q, h) in
        let (a, b, f) = parse_timestamp-format t x k q in
        subst
          (λ y.
            (parse_optional_timestamp json calendar y ≡ ok (some t))
            × (length_of y ≤ 64)
            × IsAsciiOption y)
          written (ground (arith, a), b, f)
  ]

  -- What a state that is encoded is written as.
  encode-ok :
      (p : PersistedState) (t : Text)
      → encode json calendar p ≡ ok t
      → (created : Text) × (rotated : Option Text) × (format_timestamp json calendar p.created_at
          ≡ ok created)
        × (format_optional_timestamp json calendar p.rotated_at ≡ ok rotated)
        × (precedes p.rotated_at p.created_at ≡ false)
        × (json.marshal (record {
          version = 1;
          verifier = Base64.encode p.verifier;
          created_at = created;
          rotated_at = rotated;
        })
            ≡ ok t)
  unfolding encode
  encode-ok p t h = elim (Result-cases (format_timestamp json calendar p.created_at)) [
    | inr (e, q) ↦ absurd (ground (arith, q, h))
    | inl (created, q) ↦
        elim (Result-cases (format_optional_timestamp json calendar p.rotated_at)) [
          | inr (e, k) ↦ absurd (ground (arith, q, k, h))
          | inl (rotated, k) ↦
              (created, rotated, q, k, ground (arith, q, k, h), ground (arith, q, k, h))
        ]
  ]

  -- A state that is encoded is decoded as it was, and fits into the file.
  pub decode-encode :
      (p : PersistedState) (t : Text)
      → IsDigest p.verifier
      → p.created_at < calendar.year_10000
      → IsBefore calendar.year_10000 p.rotated_at
      → encode json calendar p ≡ ok t
      → (decode json calendar t ≡ ok p) × (length t ≤ max_store_size)
  unfolding decode check_file
  decode-encode p t v k l h =
      let (created, rotated, q, r, order, m) = encode-ok p t h in
      let a = parse_timestamp-format p.created_at created k q in
      let b = parse_optional-format p.rotated_at rotated l r in
      let f : PersistedFile = record {
        version = 1;
        verifier = Base64.encode p.verifier;
        created_at = created;
        rotated_at = rotated;
      } in
      (
        ground (
          arith,
          j.read_back f t (Base64.encode-ascii p.verifier v.0) a.2 b.2 m,
          Base64.decode-encode p.verifier v.0,
          v.1,
          a.0,
          b.0,
          order,
          same_self (Base64.encode p.verifier),
        ),
        omega (arith, j.bounded f t m, Base64.length-encode p.verifier, v.1, a.1, b.1),
      )

  load-background :
      (lstat read : Checked) (p : PersistedState) (t : Text) (d : Directory)
      → d.target ≡ some (written_file file_permission t true)
      → decode json calendar t ≡ ok p
      → length t ≤ max_store_size
      → load json calendar lstat read background d ≡ (lstat >> (read >> ok (some p)))
  unfolding load load_file valid_context
  load-background lstat read p t d h k l = ground (arith, h, k, l)

  -- A save that succeeds is read back: where looking the file up and reading it work, loading, also after
  -- a restart, finds the state that was saved, whatever the directory held before, and otherwise it
  -- fails with the error of the one that does not. The verifier is a digest, the times lie before the
  -- year 10000, and packages json and time are as their laws say.
  pub load-save :
      (answers : Answers) (lstat read : Checked) (ctx : Context) (p : PersistedState)
      (d : Directory)
      → IsDigest p.verifier
      → p.created_at < calendar.year_10000
      → IsBefore calendar.year_10000 p.rotated_at
      → (save json calendar answers ctx p d).0 ≡ ok tt
      → load json calendar lstat read background (save json calendar answers ctx p d).1
        ≡ (lstat >> (read >> ok (some p)))
  unfolding save
  load-save answers lstat read ctx p d v k l h = elim (Result-cases (valid_context ctx)) [
    | inr (e, a) ↦ absurd (ground (arith, a, h))
    | inl (u, a) ↦ elim (Result-cases (encode json calendar p)) [
      | inr (e, b) ↦ absurd (ground (arith, a, b, h))
      | inl (t, b) ↦ elim (Result-cases (valid_context (later ctx))) [
        | inr (e, g) ↦ absurd (ground (arith, a, b, g, h))
        | inl (w, g) ↦
            let coded = decode-encode p t v k l b in
            let kept = replace-ok answers t file_permission d (ground (arith, a, b, g, h)) in
            let same_state : (save json calendar answers ctx p d).1
                ≡ last_state d (replace answers t file_permission d).1 =
              ground (arith, a, b, g) in
            load-background lstat read p t _ (ap (λ x. x.target) (same_state ∙ kept)) coded.0
              coded.1
      ]
    ]
  ]

  -- After a deletion that succeeds, no file is found.
  pub load-delete :
      (lstat lstat' read : Checked) (outcome : Removal) (ctx : Context) (d : Directory)
      → (delete json calendar lstat outcome ctx d).0 ≡ ok tt
      → load json calendar lstat' read background (delete json calendar lstat outcome ctx d).1
        ≡ (lstat' >> ok none)
  unfolding delete load valid_context
  load-delete lstat lstat' read outcome ctx d h = elim (Option-cases d.target) [
    | inl q ↦ ground (arith, q, h)
    | inr (f, q) ↦ ground (arith, q, h)
  ]
