-- ===== src/Postgres/Opener/Owned.antt =====
-- Who owns the pools of an opener of internal/connection/postgres/opener.go, as its calls change it.
use dataporch.Prelude.{
  ℕ, ◌+◌, ◌≡◌, refl, ◌⊎◌, inl, inr, true, false, [], ◌∷◌, none, some, if◌then◌else◌, ltb, arith,
  Option-cases, Bool-cases, length, subst, sym,
}
use dataporch.Text.{Text}
use dataporch.Fault.{Fault, wraps, runtime_closed, open_invalidated}
use dataporch.Assoc.{Assoc, lookup, insert, remove, Each, Each-insert, Each-remove}
use dataporch.Postgres.Opener.{
  CacheEntry, Opener, new_opener, acquire, start_attempt, detach, detach_all, invalidate, close,
  generation_of,
}
use dataporch.Postgres.Opener.Counts.{
  closings, cachings, client_of, cachings-insert, cachings-remove,
}

-- An entry holds a pool or waits for an attempt, never both.
abbrev pub IsExclusive : Text → CacheEntry → Type 0
IsExclusive id e = (e.client ≡ none) ⊎ (e.attempt ≡ none)

-- Every pool that was made is cached once or closed once; a closed cache is empty.
pub record IsSound (o : Opener) : Type 0 where
  pub owned :
      (p : ℕ) → cachings p o.entries + closings p o.closing ≡ (if ltb p o.made then 1 else 0)
  pub exclusive : Each IsExclusive o.entries
  pub emptied : (o.is_closed ≡ false) ⊎ (o.entries ≡ [])

pub new_opener-IsSound : IsSound new_opener
unfolding new_opener cachings closings
new_opener-IsSound = record { owned = λ p. ground arith; exclusive = tt; emptied = inl refl }

start_attempt-IsSound :
    (id : Text) (o : Opener)
    → client_of (lookup id o.entries) ≡ none
    → o.is_closed ≡ false
    → IsSound o
    → IsSound (start_attempt id o).1
unfolding start_attempt
start_attempt-IsSound id o free live v = record {
  owned = λ p. ground (
    arith,
    free,
    v.owned p,
    cachings-insert p id
        (record {
          generation = generation_of id o;
          client = none;
          attempt = some (length o.attempts);
        })
        o.entries,
  );
  exclusive = Each-insert IsExclusive id _ o.entries (inl refl) v.exclusive;
  emptied = inl live;
}

acquire_cases :
    (id : Text) (o : Opener)
    → ((acquire id o).1 ≡ o)
      ⊎ (((acquire id o).1 ≡ (start_attempt id o).1)
          × (client_of (lookup id o.entries) ≡ none)
          × (o.is_closed ≡ false))
unfolding acquire
acquire_cases id o = elim (Bool-cases o.is_closed) [
  | inl c ↦ inl (ground (arith, c))
  | inr c ↦ elim (Option-cases (lookup id o.entries)) [
    | inl q ↦ inr (ground (arith, c, q), ground (arith, q), c)
    | inr (e, q) ↦ elim (Option-cases e.client) [
      | inr (p, k) ↦ inl (ground (arith, c, q, k))
      | inl k ↦ elim (Option-cases e.attempt) [
        | inr (n, l) ↦ inl (ground (arith, c, q, k, l))
        | inl l ↦ inr (ground (arith, c, q, k, l), ground (arith, q, k), c)
      ]
    ]
  ]
]

pub acquire-IsSound : (id : Text) (o : Opener) → IsSound o → IsSound (acquire id o).1
acquire-IsSound id o v = elim (acquire_cases id o) [
  | inl e ↦ subst IsSound (sym e) v
  | inr (e, free, live) ↦ subst IsSound (sym e) (start_attempt-IsSound id o free live v)
]

detach_all_owned :
    (p : ℕ) (m : Assoc CacheEntry) (o : Opener)
    → closings p (detach_all m o).closing ≡ cachings p m + closings p o.closing
unfolding detach_all cachings closings
detach_all_owned p [] o = ground arith
detach_all_owned p ((id, e) ∷ m) o =
    ground (arith, detach_all_owned p m (detach (wraps runtime_closed) e o))

pub detach_all_rest :
    (m : Assoc CacheEntry) (o : Opener)
    → ((detach_all m o).entries ≡ o.entries)
      × ((detach_all m o).made ≡ o.made)
      × ((detach_all m o).is_closed ≡ o.is_closed)
unfolding detach_all
detach_all_rest [] o = (refl, refl, refl)
detach_all_rest ((id, e) ∷ m) o = detach_all_rest m (detach (wraps runtime_closed) e o)

pub close-IsSound : (o : Opener) → IsSound o → IsSound (close o)
unfolding close cachings
close-IsSound o v = elim (Bool-cases o.is_closed) [
  | inl c ↦ let e : close o ≡ o = ground (arith, c) in subst IsSound (sym e) v
  | inr c ↦
      let start : Opener = record o { is_closed = true; entries = [] } in
      let e : close o ≡ detach_all o.entries start = ground (arith, c) in
      let rest = detach_all_rest o.entries start in
      subst IsSound (sym e) (record {
        owned = λ p. ground (arith, v.owned p, detach_all_owned p o.entries start, rest);
        exclusive = subst (Each IsExclusive) (sym rest.0) tt;
        emptied = inr rest.0;
      })
]

detach-IsSound :
    (id : Text) (e : CacheEntry) (cause : Fault) (o : Opener) (generations : Assoc ℕ)
    → lookup id o.entries ≡ some e
    → o.is_closed ≡ false
    → IsSound o
    → IsSound
        (detach cause e (record o { generations = generations; entries = remove id o.entries }))
unfolding closings
detach-IsSound id e cause o generations q c v = record {
  owned = λ p. ground (arith, q, v.owned p, cachings-remove p id o.entries);
  exclusive = Each-remove IsExclusive id o.entries v.exclusive;
  emptied = inl c;
}

pub invalidate-IsSound : (id : Text) (o : Opener) → IsSound o → IsSound (invalidate id o)
unfolding invalidate
invalidate-IsSound id o v = elim (Bool-cases o.is_closed) [
  | inl c ↦ let e : invalidate id o ≡ o = ground (arith, c) in subst IsSound (sym e) v
  | inr c ↦
      let raised : Assoc ℕ = insert id (generation_of id o + 1) o.generations in
      elim (Option-cases (lookup id o.entries)) [
        | inl q ↦
            let e : invalidate id o
                ≡ record o { generations = raised; entries = remove id o.entries } =
              ground (arith, c, q) in
            subst IsSound (sym e) (record {
              owned = λ p. ground (arith, q, v.owned p, cachings-remove p id o.entries);
              exclusive = Each-remove IsExclusive id o.entries v.exclusive;
              emptied = inl c;
            })
        | inr (x, q) ↦
            let e : invalidate id o
                ≡ detach (wraps open_invalidated) x
                    (record o { generations = raised; entries = remove id o.entries }) =
              ground (arith, c, q) in
            subst IsSound (sym e) (detach-IsSound id x (wraps open_invalidated) o raised q c v)
      ]
]
