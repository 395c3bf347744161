-- ===== src/Diagnostics.antt =====
-- The message of a database as a client may see it: mysqlDiagnostic of
-- internal/connection/mysql/query_error.go and sqliteDiagnostic of internal/connection/sqlite/query_error.go.
use dataporch.Prelude.{
  refl, Bool, true, ◌&&◌, not, ◌++◌, ℕ, zero, suc, ◌≤◌, ◌≡◌, ◌≢◌, false, ◌||◌, List, [], ◌∷◌, map,
  if◌then◌else◌, leb, length, length-take-le, take, ◌==◌, All, arith, Bool-cases, inl, inr,
}
use dataporch.Text.{Text, bytes, same, has_prefix, contains}
use dataporch.Text.Utf8.{valid_string, to_valid}
use dataporch.Text.Words.{fields, join, without, All-join, fields-apart}

abbrev max_length : ℕ
max_length = 512

abbrev replacement : Text
replacement = 0xef ∷ 0xbf ∷ 0xbd ∷ []

-- A word that may be the path of a file.
unfoldable pub redact : Text → Text
redact field =
    if contains field (bytes "/") || has_prefix field (bytes "file:")
    then bytes "[redacted]"
    else field

-- The first n bytes, less one at a time until they are valid.
unfoldable pub cut_valid : ℕ → Text → Text
cut_valid zero message = []
cut_valid (suc n) message =
    let shorter = cut_valid n message in
    if valid_string (take (suc n) message) then take (suc n) message else shorter

abbrev pub redacted : Text → Text
redacted message = join (bytes " ") (map redact (fields (without 0 (to_valid message replacement))))

unfoldable pub bounded : Text → Text → Text
bounded fallback message =
    if same message []
    then fallback
    else if leb (length message) max_length
    then message
    else cut_valid max_length message

unfoldable pub mysql_diagnostic : Text → Text
mysql_diagnostic message = bounded (bytes "MySQL database error.") (redacted message)

unfoldable pub sqlite_diagnostic : Text → Text
sqlite_diagnostic message = bounded (bytes "SQLite database error.") (redacted message)

-- No word of a text, as blanks separate them, starts with "file:"; the flag says that a word starts here.
unfoldable pub names_no_file : Bool → Text → Bool
names_no_file starts [] = true
names_no_file starts (b ∷ t) =
    let later = names_no_file (b == 32) t in
    not (starts && has_prefix (b ∷ t) (bytes "file:")) && later

-- What a client is shown: no slash, no word that starts with "file:", and a bound on the length.
pub record IsShown (message : Text) : Type 0 where
  pub no_slash : All (λ b. b ≢ b'/') message
  pub no_file : names_no_file true message ≡ true
  pub short : length message ≤ max_length

-- A word without blanks, of which these hold.
abbrev IsClean : Text → Type 0
IsClean w = All (λ b. b ≢ 32) w × (has_prefix w (bytes "file:") ≡ false)

has_prefix-append :
    (w r p : Text)
    → All (λ b. b ≢ 32) p
    → has_prefix w p ≡ false
    → has_prefix (w ++ 32 ∷ r) p ≡ false
unfolding has_prefix
has_prefix-append [] r [] a h = ground (arith, h)
has_prefix-append [] r (c ∷ p) a h = ground (arith, a.0)
has_prefix-append (x ∷ w) r [] a h = ground (arith, h)
has_prefix-append (x ∷ w) r (c ∷ p) a h = ground (arith, h, has_prefix-append w r p a.1)

has_prefix-take : (n : ℕ) (t p : Text) → has_prefix t p ≡ false → has_prefix (take n t) p ≡ false
unfolding has_prefix
has_prefix-take n t [] h = absurd (ground (arith, h))
has_prefix-take zero t (c ∷ p) h = refl
has_prefix-take (suc n) [] (c ∷ p) h = refl
has_prefix-take (suc n) (x ∷ t) (c ∷ p) h = ground (arith, h, has_prefix-take n t p)

names_no_file-take :
    (n : ℕ) (starts : Bool) (t : Text)
    → names_no_file starts t ≡ true
    → names_no_file starts (take n t) ≡ true
unfolding names_no_file
names_no_file-take zero starts t h = refl
names_no_file-take (suc n) starts [] h = refl
names_no_file-take (suc n) starts (b ∷ t) h =
    ground
      (arith, h, names_no_file-take n (b == 32) t, has_prefix-take (suc n) (b ∷ t) (bytes "file:"))

names_no_file-inside : (w : Text) → All (λ b. b ≢ 32) w → names_no_file false w ≡ true
unfolding names_no_file
names_no_file-inside [] h = refl
names_no_file-inside (b ∷ w) h =
    let other : (b == 32) ≡ false = ground (arith, h.0) in
    ground (arith, other, names_no_file-inside w h.1)

names_no_file-word : (w : Text) → IsClean w → names_no_file true w ≡ true
unfolding names_no_file
names_no_file-word [] h = refl
names_no_file-word (b ∷ w) h =
    let other : (b == 32) ≡ false = ground (arith, h.0.0) in
    ground (arith, other, h.1, names_no_file-inside w h.0.1)

names_no_file-within :
    (w r : Text)
    → All (λ b. b ≢ 32) w
    → names_no_file true r ≡ true
    → names_no_file false (w ++ 32 ∷ r) ≡ true
unfolding names_no_file
names_no_file-within [] r h k = ground (arith, k)
names_no_file-within (b ∷ w) r h k =
    let other : (b == 32) ≡ false = ground (arith, h.0) in
    ground (arith, other, names_no_file-within w r h.1 k)

names_no_file-append :
    (w r : Text) → IsClean w → names_no_file true r ≡ true → names_no_file true (w ++ 32 ∷ r) ≡ true
unfolding names_no_file
names_no_file-append [] r h k =
    ground (arith, k, has_prefix-append [] r (bytes "file:") (omega arith) h.1)
names_no_file-append (b ∷ w) r h k =
    let other : (b == 32) ≡ false = ground (arith, h.0.0) in
    ground (
      arith,
      other,
      names_no_file-within w r h.0.1 k,
      has_prefix-append (b ∷ w) r (bytes "file:") (omega arith) h.1,
    )

names_no_file-join :
    (words : List Text) → All IsClean words → names_no_file true (join (bytes " ") words) ≡ true
unfolding join names_no_file
names_no_file-join [] h = refl
names_no_file-join (w ∷ []) h = names_no_file-word w h.0
names_no_file-join (w ∷ v ∷ rest) h =
    names_no_file-append w _ h.0 (names_no_file-join (v ∷ rest) h.1)

redact-IsClean : (field : Text) → All (λ b. b ≢ 32) field → IsClean (redact field)
unfolding redact
redact-IsClean field h =
    elim (Bool-cases (contains field (bytes "/") || has_prefix field (bytes "file:"))) [
      | inl q ↦ rw (q, redact) (omega arith, unfold has_prefix in refl)
      | inr q ↦ rw (q, redact) (h, ground (arith, q))
    ]

map-redact-IsClean :
    (words : List Text) → All (All (λ b. b ≢ 32)) words → All IsClean (map redact words)
map-redact-IsClean [] h = tt
map-redact-IsClean (w ∷ words) h = (redact-IsClean w h.0, map-redact-IsClean words h.1)

redacted_file : (message : Text) → names_no_file true (redacted message) ≡ true
redacted_file message =
    let words = fields (without 0 (to_valid message replacement)) in
    names_no_file-join _ (map-redact-IsClean words (fields-apart _))

contains-cons :
    (b : ℕ) (t : Text) → contains (b ∷ t) (bytes "/") ≡ (b == b'/' || contains t (bytes "/"))
unfolding contains has_prefix
contains-cons b t = ground arith

contains_slash : (t : Text) → contains t (bytes "/") ≡ false → All (λ b. b ≢ b'/') t
contains_slash [] h = tt
contains_slash (b ∷ t) h =
    let e = contains-cons b t in (ground (arith, e), contains_slash t (ground (arith, e)))

redact_slash : (field : Text) → All (λ b. b ≢ b'/') (redact field)
unfolding redact
redact_slash field = elim (Bool-cases (contains field (bytes "/"))) [
  | inl h ↦ rw (h, redact) (ground arith)
  | inr h ↦ elim (Bool-cases (has_prefix field (bytes "file:"))) [
    | inl k ↦ rw (h, redact) (rw k (ground arith))
    | inr k ↦ rw (h, redact) (rw k (contains_slash field h))
  ]
]

map-redact_slash : (words : List Text) → All (All (λ b. b ≢ b'/')) (map redact words)
map-redact_slash [] = tt
map-redact_slash (w ∷ words) = (redact_slash w, map-redact_slash words)

redacted_slash : (message : Text) → All (λ b. b ≢ b'/') (redacted message)
redacted_slash message =
    All-join (λ b. b ≢ b'/') (bytes " ") _ (ground arith)
      (map-redact_slash (fields (without 0 (to_valid message replacement))))

All-take : (n : ℕ) (t : Text) → All (λ b. b ≢ b'/') t → All (λ b. b ≢ b'/') (take n t)
All-take zero t h = tt
All-take (suc n) [] h = tt
All-take (suc n) (b ∷ t) h = (h.0, All-take n t h.1)

cut_valid-IsShown :
    (n : ℕ) (t : Text)
    → All (λ b. b ≢ b'/') t
    → names_no_file true t ≡ true
    → All (λ b. b ≢ b'/') (cut_valid n t)
      × (names_no_file true (cut_valid n t) ≡ true)
      × (length (cut_valid n t) ≤ n)
unfolding cut_valid
cut_valid-IsShown zero t h k = (tt, unfold names_no_file in refl, omega arith)
cut_valid-IsShown (suc n) t h k = elim (Bool-cases (valid_string (take (suc n) t))) [
  | inl v ↦
      rw (v, cut_valid)
        (All-take (suc n) t h, names_no_file-take (suc n) true t k, length-take-le (suc n) t)
  | inr v ↦ let l = cut_valid-IsShown n t h k in rw (v, cut_valid) (l.0, l.1, omega (arith, l.2))
]

bounded-IsShown :
    (fallback message : Text)
    → IsShown fallback
    → All (λ b. b ≢ b'/') message
    → names_no_file true message ≡ true
    → IsShown (bounded fallback message)
unfolding bounded
bounded-IsShown fallback message f h k = elim (Bool-cases (same message [])) [
  | inl e ↦ rw (e, bounded) f
  | inr e ↦ elim (Bool-cases (leb (length message) max_length)) [
    | inl l ↦ rw (e, bounded) (rw l (record { no_slash = h; no_file = k; short = ground arith }))
    | inr l ↦
        let c = cut_valid-IsShown max_length message h k in
        rw (e, bounded) (rw l (record { no_slash = c.0; no_file = c.1; short = c.2 }))
  ]
]

pub mysql_diagnostic-IsShown : (message : Text) → IsShown (mysql_diagnostic message)
unfolding mysql_diagnostic names_no_file has_prefix
mysql_diagnostic-IsShown message =
    bounded-IsShown (bytes "MySQL database error.") (redacted message)
      (record { no_slash = ground arith; no_file = refl; short = omega arith })
      (redacted_slash message) (redacted_file message)

pub sqlite_diagnostic-IsShown : (message : Text) → IsShown (sqlite_diagnostic message)
unfolding sqlite_diagnostic names_no_file has_prefix
sqlite_diagnostic-IsShown message =
    bounded-IsShown (bytes "SQLite database error.") (redacted message)
      (record { no_slash = ground arith; no_file = refl; short = omega arith })
      (redacted_slash message) (redacted_file message)
