-- ===== src/Execution/Sources/Pages.antt =====
-- What following the cursors of `ListDataSources` of internal/execution/discovery_service.go visits.
mod Resume
use dataporch.Prelude.{
  ℕ, zero, suc, ◌+◌, ◌≤◌, ◌<◌, ◌≡◌, ◌≢◌, refl, sym, ap, ◌∙◌, ◌⊎◌, inl, inr, Bool, true, false, not,
  ◌&&◌, ◌||◌, List, [], ◌∷◌, ◌++◌, Option, none, some, if◌then◌else◌, ltb, length, take, drop, ℤ,
  pos, arith, All, subst, lt→ltb, ltb→lt, all, Bool-cases, Option-cases, take-append-drop,
  length-drop,
}
use mathlib.Core.List.{append_assoc}
use dataporch.Text.{Text, bytes, same, same_iff, same_self, before, contains}
use dataporch.Text.Base64.{IsBytes, ascii-IsBytes}
use dataporch.Text.Utf8.{valid_string, valid_string-ascii}
use dataporch.Fault.{
  Fault, Result, ok, err, ◌>>=◌, ◌>>◌, Context, context, background, later, or_else,
}
use dataporch.Access
use dataporch.Assoc.{lookup}
use dataporch.Sort.{sort, DistinctBy, Apart, Ascending, sort-Ascending, All-sort}
use dataporch.Connection.Definition.{Definition, is_valid_id_character}
use dataporch.Connection.Definition.Laws.{IsId}
use dataporch.Execution.Cursor.{
  Codec, CursorRequest, CursorPayload, no_payload, encode_cursor, decode_cursor,
}
use dataporch.Execution.Cursor.Laws.{IsCodec, decode-encode, name_payload}
use dataporch.Execution.Types.{DataSource, ListDataSourcesRequest, ListDataSourcesResult}
use dataporch.Execution.Service.{Service, validate_context, effective_limit, authorized}
use dataporch.Execution.Sources.{
  source_id, describe, last_id, sources_cursor, resume, matching, page_sources, list_data_sources,
}
use dataporch.Execution.Sources.Client.{collect, IsRegistry, IsAllowed, sources_of}
use Resume.{resume_lem, Split, last-Split, Split-append, Split-All}

module _ (c : Codec) (to_lower : Text → Text) (s : Service) (search : Text) where
  All-matching :
      (P : Text → Type 0) (ds : List Definition)
      → All (λ d. P d.id) ds
      → All (λ x. P x.id) (matching c to_lower s search ds)
  unfolding matching describe
  All-matching P [] h = tt
  All-matching P (d ∷ ds) h = ground (arith, All-matching P ds h.1)

  matching-DistinctBy :
      (ds : List Definition)
      → DistinctBy (λ d. d.id) ds
      → DistinctBy source_id (matching c to_lower s search ds)
  unfolding matching describe
  matching-DistinctBy [] h = tt
  matching-DistinctBy (d ∷ ds) h =
      ground (arith, All-matching (λ i. same d.id i ≡ false) ds h.0, matching-DistinctBy ds h.1)

-- What an identifier must be for its cursor to lead back to it.
abbrev IsName : Text → Type 0
IsName t = (0 < length t) × (length t ≤ 512) × IsBytes t × (valid_string t ≡ true)

characters-ascii : (t : Text) → all is_valid_id_character t ≡ true → All (λ b. b < 0x80) t
unfolding is_valid_id_character
characters-ascii [] h = tt
characters-ascii (b ∷ t) h = ground (arith, characters-ascii t)

IsId-IsName : (t : Text) → IsId t → IsName t
IsId-IsName t h =
    let low = characters-ascii t h.characters in
    (h.not_empty, omega (arith, h.fits), ascii-IsBytes t low, valid_string-ascii t low)

same-false : (t : Text) → t ≢ [] → same t [] ≡ false
unfolding same
same-false [] h = absurd (h refl)
same-false (b ∷ t) h = refl

module _ {A : Type 0} (P : A → Type 0) where
  All-map : (Q : A → Type 0) → ((a : A) → P a → Q a) → (xs : List A) → All P xs → All Q xs
  All-map Q f [] h = tt
  All-map Q f (x ∷ xs) h = (f x h.0, All-map Q f xs h.1)

module _ (c : Codec) (law : IsCodec c) (to_lower : Text → Text) (s : Service) (search : Text)
    (limit : Option ℤ) (n : ℕ) where
  abbrev whole : List DataSource
  whole = sources_of c to_lower s search

  abbrev request : Text → ListDataSourcesRequest
  request cursor = record { search = search; limit = limit; cursor = cursor }

  abbrev issued_for : CursorRequest
  issued_for = sources_cursor (request []) n

  -- The cursor leads to the page that starts with `rest`.
  abbrev Starts : Text → List DataSource → Type 0
  Starts cursor rest =
      (payload : CursorPayload) × (decode_cursor c cursor issued_for false ≡ ok payload)
      × (resume cursor payload.last_name whole ≡ rest)

  page_lem :
      (cursor : Text) (rest : List DataSource)
      → effective_limit s limit ≡ ok n
      → IsAllowed s
      → Starts cursor rest
      → list_data_sources c to_lower s background (request cursor)
        ≡ page_sources c to_lower issued_for n rest
  unfolding list_data_sources validate_context sources_cursor
  page_lem cursor rest limited allowed (payload, read, starts) = rw (limited, read, allowed, starts)

  -- A page with more behind it hands out a cursor that leads to what is behind it.
  more_lem :
      (front rest : List DataSource)
      → 0 < n
      → n < length rest
      → Ascending source_id whole
      → All (λ x. IsName x.id) whole
      → whole ≡ front ++ rest
      → (next : Text) × (next ≢ [])
        × (page_sources c to_lower issued_for n rest
            ≡ ok (record { sources = take n rest; next_cursor = next }))
        × Starts next (drop n rest)
  unfolding page_sources
  more_lem front rest some_page more asc names whole_parts =
      let (p, inner, last, split) = last-Split n rest some_page more in
      let at : Split p (front ++ inner) (drop n rest) whole =
        Split-append front whole_parts split in
      let name : IsName p = subst IsName at.at_id (Split-All (λ x. IsName x.id) at names) in
      let (next, f, encoded, present, decoded) =
        decode-encode c law issued_for p name.0 name.1 name.2 name.3 in
      (
        next,
        present,
        rw (lt→ltb n (length rest) more, last, encoded),
        (
          name_payload f p,
          decoded,
          resume_lem next p (front ++ inner) (drop n rest) whole present asc at,
        ),
      )

  last_lem :
      (rest : List DataSource)
      → ltb n (length rest) ≡ false
      → page_sources c to_lower issued_for n rest ≡ ok (record { sources = rest; next_cursor = [] })
  unfolding page_sources
  last_lem rest h = rw h

  collect_lem :
      (fuel : ℕ) (cursor : Text) (front rest : List DataSource)
      → 0 < n
      → effective_limit s limit ≡ ok n
      → IsAllowed s
      → Ascending source_id whole
      → All (λ x. IsName x.id) whole
      → whole ≡ front ++ rest
      → Starts cursor rest
      → length rest < fuel
      → collect c to_lower s search limit fuel cursor ≡ ok rest
  unfolding collect
  collect_lem zero cursor front rest some_page limited allowed asc names parts starts h =
      absurd (omega arith)
  collect_lem (suc fuel) cursor front rest some_page limited allowed asc names parts starts h =
      elim (Bool-cases (ltb n (length rest))) [
        | inl more ↦
            let (next, present, page, starts') =
              more_lem front rest some_page (ltb→lt n (length rest) more) asc names parts in
            let parts' : whole ≡ (front ++ take n rest) ++ drop n rest =
              parts
              ∙ ap (◌++◌ front) (sym (take-append-drop n rest))
              ∙ sym (append_assoc front (take n rest) (drop n rest)) in
            let shorter : length (drop n rest) < fuel =
              omega (arith, length-drop n rest, ltb→lt n (length rest) more) in
            rw (
              page_lem cursor rest limited allowed starts,
              page,
              same-false next present,
              collect_lem fuel next (front ++ take n rest) (drop n rest) some_page limited allowed
                  asc names parts' starts' shorter,
              take-append-drop n rest,
            )
        | inr last ↦
            rw (page_lem cursor rest limited allowed starts, last_lem rest last, same_self [])
      ]

module _ (c : Codec) (law : IsCodec c) (to_lower : Text → Text) (s : Service) (search : Text)
    (limit : Option ℤ) (n : ℕ) where
  -- With a codec as the laws describe it, with a positive limit that the service accepts, over a
  -- registry that lists valid identifiers each once, and with the listing allowed: a client that
  -- follows the cursors until there is none is handed every source that matches the search, once
  -- and in the order of the identifiers, within one request more than there are such sources.
  pub collect_all :
      IsRegistry s.sources.list
      → 0 < n
      → effective_limit s limit ≡ ok n
      → IsAllowed s
      → collect c to_lower s search limit (suc (length (sources_of c to_lower s search))) []
        ≡ ok (sources_of c to_lower s search)
  collect_all registry some_page limited allowed =
      let found = matching c to_lower s search s.sources.list in
      let names : All (λ x. IsName x.id) (sources_of c to_lower s search) =
        All-sort source_id (λ x. IsName x.id) found
          (All-matching c to_lower s search IsName s.sources.list (
            All-map (λ d. IsId d.id) (λ d. IsName d.id) (λ d. IsId-IsName d.id) s.sources.list
              registry.valid)) in
      collect_lem c law to_lower s search limit n _ [] [] (sources_of c to_lower s search) some_page
        limited allowed
        (sort-Ascending source_id found
          (matching-DistinctBy c to_lower s search s.sources.list registry.distinct))
        names refl (no_payload, unfold decode_cursor in refl, unfold resume in refl) (omega arith)
