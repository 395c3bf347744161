-- ===== src/Tests/Files.antt =====
-- A file that is replaced by a writer of one byte at a time, a token's state, and a definition.
use dataporch.Text.{before}
use dataporch.Connection.Definition.{is_valid_field_character}
use dataporch.Connection.Definition.{is_valid_field_name}
use dataporch.Text.Utf8.{valid_string}
use dataporch.Prelude.{
  ℕ, ◌≡◌, refl, ap, ◌++◌, Bool, ◌&&◌, true, false, List, [], ◌∷◌, none, some, All, arith,
  if◌then◌else◌,
}
use dataporch.Text.{Text, bytes, same, same_iff}
use dataporch.Fault.{Result, ok, err, background}
use dataporch.Assoc.{Assoc, lookup, insert}
use dataporch.Text.Utf8.{runes, is_blank}
use dataporch.Sort.{sort}
use dataporch.AtomicFile.{
  fill, write_loop, publish, Directory, Answers, written_file, write_all, replace,
}
use dataporch.AtomicFile.Laws.{IsOldOrNew, write_all_ends, replace-IsOldOrNew}
use dataporch.Connection.Definition.{
  Definition, validate, is_valid_id, is_valid_id_character, validate_settings, validate_refs,
}
use dataporch.Connection.FileStore.{
  valid_context, write_snapshot, sorted_definitions, FileStore, Json, open_store, upsert,
}
use dataporch.Connection.FileStore.Laws.{IsJson, open_store-upsert}

-- It takes one byte in each call.
abbrev slow : ℕ → Text → Result ℕ
slow n payload = ok 1

write_all_ends_example :
    (write_loop 9 slow 0 (bytes "abc") ≡ write_all slow (bytes "abc"))
    × ((rest : Text) × ((write_all slow (bytes "abc")).1 ++ rest ≡ bytes "abc"))
    × ((write_all slow (bytes "abc")).0 ≡ ok tt → (write_all slow (bytes "abc")).1 ≡ bytes "abc")
write_all_ends_example = write_all_ends 9 slow (bytes "abc") (omega arith)

abbrev old : Directory
old = record { target = some (written_file 384 (bytes "old") true); temporary = none }

-- The directory cannot be synced after the rename.
abbrev unsynced : Answers
unsynced = record {
  created = ok true;
  chmod = ok tt;
  write = slow;
  sync = ok tt;
  close = ok tt;
  rename = ok tt;
  removed = true;
  sync_directory = err [];
}

abbrev synced : Answers
synced = record unsynced { sync_directory = ok tt }

replace-IsOldOrNew_example :
    All (IsOldOrNew (bytes "new") 384 old) (replace unsynced (bytes "new") 384 old).1
replace-IsOldOrNew_example = replace-IsOldOrNew unsynced (bytes "new") 384 old

abbrev empty : FileStore
empty = record { definitions = []; directory = record { target = none; temporary = none } }

abbrev settings : Assoc Text
settings = (bytes "host", bytes "db") ∷ (bytes "port", bytes "5432") ∷ []

abbrev sales : Definition
sales = record {
  id = bytes "sales";
  kind = bytes "postgres";
  settings = settings;
  secret_refs = [];
}

abbrev is_none : Assoc Text → Bool
is_none [] = true
is_none (x ∷ m) = false

abbrev is_settings : Assoc Text → Bool
is_settings ((a, b) ∷ (c, d) ∷ []) =
    same a (bytes "host") && same b (bytes "db") && same c (bytes "port") && same d (bytes "5432")
is_settings _ = false

-- An encoding that knows the list of this one definition.
abbrev is_sales : Definition → Bool
is_sales d =
    same d.id sales.id && same d.kind sales.kind && is_settings d.settings && is_none d.secret_refs

abbrev marshal : List Definition → Result Text
marshal [] = err []
marshal (d ∷ []) = if is_sales d then ok (bytes "sales") else err []
marshal (d ∷ x ∷ ds) = err []

abbrev json : Json
json = record { marshal = marshal; unmarshal = λ t. some (sales ∷ []) }

is_none_lem : (m : Assoc Text) → is_none m ≡ true → m ≡ []
is_none_lem [] h = refl
is_none_lem (x ∷ m) h = ground arith

is_settings_lem : (m : Assoc Text) → is_settings m ≡ true → m ≡ settings
is_settings_lem [] h = absurd (ground (arith, h))
is_settings_lem ((a, b) ∷ []) h = absurd (ground (arith, h))
is_settings_lem ((a, b) ∷ (c, d) ∷ []) h = ground (
  arith,
  h,
  same_iff a (bytes "host"),
  same_iff b (bytes "db"),
  same_iff c (bytes "port"),
  same_iff d (bytes "5432"),
)
is_settings_lem (x ∷ y ∷ z ∷ m) h = absurd (ground (arith, h))

json-IsJson : IsJson json
json-IsJson [] t w h = absurd (ground (arith, h))
json-IsJson (d ∷ []) t w h =
    ap (λ x. some (x ∷ []))
      (ground (
        arith,
        h,
        same_iff d.id sales.id,
        same_iff d.kind sales.kind,
        is_settings_lem d.settings,
        is_none_lem d.secret_refs,
      ))
json-IsJson (d ∷ x ∷ ds) t w h = absurd (ground (arith, h))

stored : (upsert json synced background sales empty).0 ≡ ok tt
unfolding upsert valid_context validate is_valid_id runes is_valid_id_character is_blank
    validate_settings validate_refs write_snapshot sorted_definitions sort insert same replace fill
    write_all write_loop lookup publish is_valid_field_name is_valid_field_character
stored = refl

open_store-upsert_example :
    (r : FileStore) × (open_store json
        (ok tt)
        (ok tt)
        (upsert json synced background sales empty).1.directory
      ≡ ok r)
    × ((k : Text)
        → lookup k r.definitions
          ≡ (if same sales.id k then some sales else lookup k empty.definitions))
unfolding valid_string before lookup same
open_store-upsert_example =
    open_store-upsert json synced background sales empty json-IsJson
      (record { distinct = tt; entries = tt }) tt
      (
        refl,
        refl,
        ((refl, refl), ((refl, refl), tt)),
        tt,
        (((refl, tt), (tt, tt)), (refl, (refl, tt))),
        ((tt), tt),
      )
      stored
