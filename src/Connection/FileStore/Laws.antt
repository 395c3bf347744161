-- ===== src/Connection/FileStore/Laws.antt =====
-- What a restart finds in the file of internal/connection/filestore/store.go.
use dataporch.Prelude.{
  ◌≡◌, refl, ap, ◌∙◌, inl, inr, true, List, [], ◌∷◌, none, some, if◌then◌else◌, arith, All,
}
use dataporch.Text.{Text, same, same_iff}
use dataporch.Text.Utf8.{valid_string}
use dataporch.Fault.{ok, Context, Result-cases}
use dataporch.Assoc.{Assoc, Distinct, lookup, insert, values, Each, lookup-insert, Each-insert}
use dataporch.Sort.{
  Ascending, sort, first, first-sort, sort-DistinctBy, DistinctBy, Apart, All-sort,
}
use dataporch.Connection.Definition.{Definition, validate}
use dataporch.Connection.Manager.Laws.{IsEntry, IsManaged, insert-IsManaged, values-DistinctBy}
use dataporch.AtomicFile.{Answers, Directory, replace, last_state, written_file}
use dataporch.AtomicFile.Laws.{replace-ok}
use dataporch.Connection.FileStore.{
  Json, FileStore, valid_context, sorted_definitions, load_all, load, open_store, write_snapshot,
  upsert,
}

first-values :
    (k : Text) (m : Assoc Definition)
    → IsManaged m
    → first (λ (d : Definition). d.id) k (values m) ≡ lookup k m
unfolding first lookup
first-values k [] h = refl
first-values k ((j, d) ∷ m) h = ground (
  arith,
  first-values k m (record { distinct = h.distinct.1; entries = h.entries.1 }),
  h.entries.0,
)

values-valid : (m : Assoc Definition) → Each IsEntry m → All (λ d. validate d ≡ ok tt) (values m)
values-valid [] h = tt
values-valid ((j, d) ∷ m) h = (h.0.1, values-valid m h.1)

-- None of the definitions is in the map.
abbrev Fresh : Assoc Definition → List Definition → Type 0
Fresh loaded = All (λ d. lookup d.id loaded ≡ none)

Fresh-insert :
    (d : Definition) (loaded : Assoc Definition) (ds : List Definition)
    → Apart (λ (x : Definition). x.id) d ds
    → Fresh loaded ds
    → Fresh (insert d.id d loaded) ds
Fresh-insert d loaded [] a h = tt
Fresh-insert d loaded (x ∷ ds) a h =
    (ground (arith, lookup-insert d.id x.id d loaded, a.0, h.0), Fresh-insert d loaded ds a.1 h.1)

first-none :
    (k : Text) (d : Definition) (ds : List Definition)
    → Apart (λ (x : Definition). x.id) d ds
    → same d.id k ≡ true
    → first (λ (x : Definition). x.id) k ds ≡ none
unfolding first
first-none k d [] a h = refl
first-none k d (x ∷ ds) a h =
    ground
      (arith, a.0, first-none k d ds a.1 h, same_iff d.id k, same_iff x.id k, same_iff d.id x.id)

-- Definitions that are valid and share no identifier are loaded, each under its own.
load_all-ok :
    (ds : List Definition) (loaded : Assoc Definition)
    → All (λ d. validate d ≡ ok tt) ds
    → DistinctBy (λ (x : Definition). x.id) ds
    → Fresh loaded ds
    → (m : Assoc Definition) × (load_all ds loaded ≡ ok m)
      × ((k : Text)
          → lookup k m ≡ elim (first (λ (x : Definition). x.id) k ds) [
            | none ↦ lookup k loaded
            | some d ↦ some d
          ])
unfolding load_all first
load_all-ok [] loaded v d f = (loaded, refl, λ k. refl)
load_all-ok (x ∷ ds) loaded v d f =
    let (m, e, l) =
      load_all-ok ds (insert x.id x loaded) v.1 d.1 (Fresh-insert x loaded ds d.0 f.1) in
    (
      m,
      ground (arith, e, v.0, f.0),
      λ k. ground (arith, l k, lookup-insert x.id k x loaded, first-none k x ds d.0),
    )

-- A map of texts as it is listed by its keys: the order in which package encoding/json writes it, and
-- the one list that stands for a map that is read.
abbrev IsListed : Assoc Text → Type 0
IsListed m = Ascending (λ (x : Text × Text). x.0) m × Distinct m

-- Package encoding/json reads back what it writes of texts that are valid UTF-8.
abbrev IsUtf8 : Assoc Text → Type 0
IsUtf8 = Each (λ k v. (valid_string k ≡ true) × (valid_string v ≡ true))

abbrev pub IsWritable : Definition → Type 0
IsWritable d =
    (valid_string d.id ≡ true)
    × (valid_string d.kind ≡ true)
    × IsUtf8 d.settings
    × IsUtf8 d.secret_refs
    × IsListed d.settings
    × IsListed d.secret_refs

abbrev pub IsJson : Json → Type 0
IsJson json =
    (ds : List Definition) (t : Text)
    → All IsWritable ds
    → json.marshal ds ≡ ok t
    → json.unmarshal t ≡ some ds

values-IsWritable :
    (m : Assoc Definition) → Each (λ k d. IsWritable d) m → All IsWritable (values m)
values-IsWritable [] h = tt
values-IsWritable ((k, d) ∷ m) h = (h.0, values-IsWritable m h.1)

Fresh-empty : (ds : List Definition) → Fresh [] ds
unfolding lookup
Fresh-empty [] = tt
Fresh-empty (d ∷ ds) = (refl, Fresh-empty ds)

-- The sorted definitions of a store are loaded again, each under its own identifier.
sorted_definitions-load_all :
    (m : Assoc Definition)
    → IsManaged m
    → (r : Assoc Definition) × (load_all (sorted_definitions m) [] ≡ ok r)
      × ((k : Text) → lookup k r ≡ lookup k m)
unfolding sorted_definitions lookup
sorted_definitions-load_all m h =
    let key = λ (x : Definition). x.id in
    let apart = values-DistinctBy m h in
    let (r, e, l) =
      load_all-ok (sort key (values m)) []
        (All-sort key (λ d. validate d ≡ ok tt) (values m) (values-valid m h.entries))
        (sort-DistinctBy key (values m) apart) (Fresh-empty (sort key (values m))) in
    (r, e, λ k. ground (arith, l k, first-sort key k (values m) apart, first-values k m h))

load-written :
    (json : Json) (ds : List Definition) (t : Text) (d : Directory)
    → d.target ≡ some (written_file 384 t true)
    → json.unmarshal t ≡ some ds
    → load json (ok tt) (ok tt) d ≡ load_all ds []
unfolding load
load-written json ds t d h k = ground (arith, h, k)

-- What a write of a snapshot that succeeds leaves is loaded as the definitions that were written.
write_snapshot-ok :
    (json : Json) (answers : Answers) (ds : List Definition) (d : Directory)
    → IsJson json
    → All IsWritable ds
    → (write_snapshot json answers ds d).0 ≡ ok tt
    → load json (ok tt) (ok tt) (write_snapshot json answers ds d).1 ≡ load_all ds []
unfolding write_snapshot
write_snapshot-ok json answers ds d j w h = elim (Result-cases (json.marshal ds)) [
  | inr (e, q) ↦ absurd (ground (arith, q, h))
  | inl (t, q) ↦
      let kept = replace-ok answers t 384 d (ground (arith, q, h)) in
      let left : (write_snapshot json answers ds d).1 ≡ last_state d (replace answers t 384 d).1 =
        ground (arith, q) in
      load-written json ds t _ (ap (λ x. x.target) (left ∙ kept)) (j ds t w q)
]

-- After a definition is stored successfully, a restart at which the file can be looked up and read
-- finds it, and every other definition as it was: each identifier leads to what the store in memory
-- has under it. What is stored consists of texts that are valid UTF-8, its maps are listed by their
-- keys, and package json reads back what it writes of such definitions.
pub open_store-upsert :
    (json : Json) (answers : Answers) (ctx : Context) (d : Definition) (s : FileStore)
    → IsJson json
    → IsManaged s.definitions
    → Each (λ k x. IsWritable x) s.definitions
    → IsWritable d
    → (upsert json answers ctx d s).0 ≡ ok tt
    → (r : FileStore) × (open_store json (ok tt) (ok tt) (upsert json answers ctx d s).1.directory
        ≡ ok r)
      × ((k : Text)
          → lookup k r.definitions ≡ (if same d.id k then some d else lookup k s.definitions))
unfolding upsert open_store
open_store-upsert json answers ctx d s j m w v h = elim (Result-cases (valid_context ctx)) [
  | inr (e, q) ↦ absurd (ground (arith, q, h))
  | inl (u, q) ↦ elim (Result-cases (validate d)) [
    | inr (e, k) ↦ absurd (ground (arith, q, k, h))
    | inl (x, k) ↦
        let more = insert d.id d s.definitions in
        let ds = sorted_definitions more in
        let writable : All IsWritable ds =
          unfold sorted_definitions in
          All-sort (λ (y : Definition). y.id) IsWritable (values more)
            (values-IsWritable more (Each-insert (λ k y. IsWritable y) d.id d s.definitions v w)) in
        let read =
          write_snapshot-ok json answers ds s.directory j writable (ground (arith, q, k, h)) in
        let (r, e, l) = sorted_definitions-load_all more (insert-IsManaged d s.definitions k m) in
        let left : (upsert json answers ctx d s).1.directory
            ≡ (write_snapshot json answers ds s.directory).1 =
          ground (arith, q, k, h) in
        (
          record { definitions = r; directory = (upsert json answers ctx d s).1.directory },
          ground (arith, left, read, e),
          λ i. ground (arith, l i, lookup-insert d.id i d s.definitions),
        )
  ]
]
