-- ===== src/Tests/TokenFiles.antt =====
-- A token's state that is saved in a file and loaded again.
use dataporch.AtomicFile.{publish}
use dataporch.AtomicFile.{write_loop}
use dataporch.AtomicFile.{write_all}
use dataporch.AtomicFile.{fill}
use dataporch.AtomicFile.{replace}
use dataporch.Token.Local.{format_optional_timestamp}
use dataporch.Token.Local.{format_timestamp}
use dataporch.Token.Local.{encode}
use dataporch.Token.Local.{valid_context}
use dataporch.Prelude.{
  ap, ◌++◌, ℕ, ◌≡◌, ◌+◌, ◌-◌, ◌&&◌, ◌==◌, refl, Bool, true, false, [], ◌∷◌, Option, none, some,
  arith, length, if◌then◌else◌,
}
use dataporch.Text.{Text, bytes, same, same_iff}
use dataporch.Text.Base64
use dataporch.Fault.{ok, err, background}
use dataporch.AtomicFile.{Directory, Answers}
use dataporch.Token.{
  PersistedState, Store, TokenService, Metadata, state_active, commit_active, rotate, may_rotate,
  generate_token, save_and_commit,
}
use dataporch.Token.Laws.{IsIssued, rotate-IsIssued}
use dataporch.Token.Local.Stored.{IsStorable, local_store, local_store-IsStore}
use dataporch.Token.Local.{removed, Json, Calendar, load, save}
use dataporch.Token.Local.Laws.{IsJson, IsCalendar, load-save}

-- Times of one digit.
abbrev first_of : Text → Option ℕ
first_of [] = none
first_of (b ∷ t) = some (b - 48)

abbrev calendar : Calendar
calendar = record {
  year_10000 = 10;
  format = λ t. (t + 48) ∷ b'Z' ∷ [];
  parse = first_of;
  is_utc = λ t. true;
}

calendar-IsCalendar : IsCalendar calendar
calendar-IsCalendar = record {
  parse_format = λ t h. ground arith;
  utc = λ t. refl;
  ascii = λ t h. omega arith;
  not_empty = λ t h. ground (arith, h);
  short = λ t h. omega arith;
}

-- An encoding that knows files of one pair of times.
abbrev is_seven : Option Text → Bool
is_seven none = false
is_seven (some t) = same t (bytes "7Z")

is_seven_lem : (t : Option Text) → is_seven t ≡ true → t ≡ some (bytes "7Z")
is_seven_lem none h = absurd (ground (arith, h))
is_seven_lem (some t) h = ap some ((same_iff t (bytes "7Z")).0 h)

abbrev json : Json
json = record {
  marshal = λ f.
      if f.version == 1 && same f.created_at (bytes "5Z") && is_seven f.rotated_at
      then ok f.verifier
      else err [];
  decode = λ t. some (record {
    version = 1;
    verifier = t;
    created_at = bytes "5Z";
    rotated_at = some (bytes "7Z");
  });
}

json-IsJson : IsJson json
json-IsJson = record {
  read_back = λ f t a b c h.
      ground (arith, h, same_iff f.created_at (bytes "5Z"), is_seven_lem f.rotated_at);
  bounded = λ f t h. ground (arith, h);
}

abbrev quiet : Answers
quiet = record {
  created = ok true;
  chmod = ok tt;
  write = λ n payload. ok (length payload);
  sync = ok tt;
  close = ok tt;
  rename = ok tt;
  removed = true;
  sync_directory = ok tt;
}

abbrev state : PersistedState
state = record {
  verifier = bytes "0123456789abcdef0123456789abcdef";
  created_at = 5;
  rotated_at = some 7;
}

abbrev nothing : Directory
nothing = record { target = none; temporary = none }

saved : (save json calendar quiet background state nothing).0 ≡ ok tt
unfolding save valid_context encode same format_timestamp format_optional_timestamp replace fill
    write_all write_loop Base64.encode publish
saved = refl

load-save_example :
    load json calendar
      (ok tt)
      (ok tt)
      background
      (save json calendar quiet background state nothing).1
    ≡ ok (some state)
load-save_example =
    load-save json calendar json-IsJson calendar-IsCalendar quiet (ok tt) (ok tt) background state
      nothing (omega arith, refl) (omega arith) (omega arith) saved

-- A service whose token is rotated, with this file as its store.
abbrev file_store : Store Directory
file_store = local_store json calendar quiet removed

abbrev sum256 : Text → Text
sum256 t = bytes "0123456789abcdef0123456789abcdef"

abbrev active : TokenService
active = commit_active (sum256 []) (record { created_at = 5; rotated_at = none })

abbrev next_token : Text
next_token = bytes "dp-" ++ Base64.encode (bytes "xyz")

abbrev next_metadata : Metadata
next_metadata = record { created_at = 5; rotated_at = some 7 }

rotated :
    (rotate sum256 file_store background (some (bytes "xyz")) 7 active nothing).0
    ≡ ok (next_token, next_metadata)
unfolding rotate may_rotate generate_token save_and_commit save valid_context encode same
    format_timestamp format_optional_timestamp replace fill write_all write_loop Base64.encode
    publish
rotated = refl

rotate-IsIssued_example :
    (active.state ≡ state_active)
    × (next_metadata ≡ record { created_at = 5; rotated_at = some 7 })
    × IsIssued sum256 file_store next_token next_metadata
        (rotate sum256 file_store background (some (bytes "xyz")) 7 active nothing).1.0
        (rotate sum256 file_store background (some (bytes "xyz")) 7 active nothing).1.1
rotate-IsIssued_example =
    rotate-IsIssued sum256 file_store (IsStorable calendar)
      (local_store-IsStore json calendar quiet removed json-IsJson calendar-IsCalendar) background
      (some (bytes "xyz")) 7 active nothing next_token next_metadata
      (λ t. ((omega arith, refl), omega arith, omega arith)) rotated
