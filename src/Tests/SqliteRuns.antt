-- ===== src/Tests/SqliteRuns.antt =====
-- Two leases on a SQLite database that is invalidated between them, a close, and a secured connection.
use dataporch.Text.{has_prefix}
use dataporch.Sqlite.Policy.{is_denied_function}
use dataporch.Text.Utf8.{is_space}
use dataporch.Text.Utf8.{chunks}
use dataporch.Text.Words.{trim_left}
use dataporch.Text.Words.{trim_right}
use dataporch.Text.Words.{sources}
use dataporch.Text.Words.{trim_space}
use dataporch.Sqlite.Policy.{function_allowed}
use dataporch.Sqlite.Runtime.{update_entry}
use dataporch.Assoc.{remove}
use dataporch.Text.{same}
use dataporch.Assoc.{insert}
use dataporch.Assoc.{lookup}
use dataporch.Sqlite.Runtime.{attached}
use mathlib.Core.List.{map-append}
use dataporch.Prelude.{map, ◌++◌, ◌≡◌, refl, ◌↔◌, true, false, List, [], ◌∷◌}
use dataporch.Text.{Text, bytes}
use dataporch.Fault.{ok}
use dataporch.Sqlite.Runtime.{Runtime, new_runtime, acquire, release, invalidate, close}
use dataporch.Sqlite.Runtime.Steps.{
  Lease, Reach, here, next, acquire_step, release_step, invalidate_step,
}
use dataporch.Sqlite.Runtime.Leases.{IsCounted, Reach-IsCounted, close-drain_closed}
use dataporch.Sqlite.Policy.{
  Conn, query, function, allow, deny, authorize, configure_connection, Request,
}
use dataporch.Sqlite.Policy.Laws.{
  lower, IsToLower, IsHarmless, authorize-IsHarmless, Agrees, securing,
  configure_connection-secures,
}

abbrev db : Text
db = bytes "db"

abbrev once : Runtime
once = (acquire db new_runtime).1

abbrev changed : Runtime
changed = invalidate db once

abbrev twice : Runtime
twice = (acquire db changed).1

first_lease : (acquire db new_runtime).0 ≡ ok 0
unfolding acquire new_runtime attached lookup
first_lease = refl

second_lease : (acquire db changed).0 ≡ ok 1
unfolding acquire invalidate new_runtime attached lookup insert same remove update_entry
second_lease = refl

Reach-twice : Reach new_runtime [] twice ((db, 1) ∷ (db, 0) ∷ [])
unfolding acquire new_runtime attached lookup invalidate insert same remove update_entry
Reach-twice =
    next
      (next (next here (acquire_step db new_runtime [])) (invalidate_step db once ((db, 0) ∷ [])))
      (acquire_step db changed ((db, 0) ∷ []))

Reach-released :
    Reach (close twice) ((db, 1) ∷ (db, 0) ∷ []) (release db 1 (close twice)) ((db, 0) ∷ [])
Reach-released = next here (release_step db 1 (close twice) [] ((db, 0) ∷ []))

abbrev one_left : List Lease
one_left = (db, 0) ∷ []

Reach-IsCounted_example : IsCounted twice ((db, 1) ∷ (db, 0) ∷ [])
Reach-IsCounted_example = Reach-IsCounted Reach-twice

close-drain_closed_example :
    ((acquire db (release db 1 (close twice))).1 ≡ release db 1 (close twice))
    × (((release db 1 (close twice)).drain_closed ≡ true) ↔ (one_left ≡ []))
close-drain_closed_example = close-drain_closed db Reach-twice Reach-released

-- Lower case for ASCII alone.
abbrev to_lower : Text → Text
to_lower t = map lower t

to_lower-IsToLower : IsToLower to_lower
to_lower-IsToLower = record { ascii = λ s t h. map-append lower s t; empty = refl }

allowed : authorize to_lower query function [] (bytes " Lower ") [] [] ≡ allow
unfolding authorize function_allowed same trim_space sources trim_right trim_left chunks is_space
    is_denied_function has_prefix
allowed = refl

authorize-IsHarmless_example : IsHarmless function (bytes " Lower ") []
authorize-IsHarmless_example =
    authorize-IsHarmless to_lower to_lower-IsToLower function [] (bytes " Lower ") [] [] allowed

loads_code : authorize to_lower query function [] (bytes "Load_Extension\n") [] [] ≡ deny
unfolding authorize function_allowed same trim_space sources trim_right trim_left chunks is_space
    is_denied_function
loads_code = refl

abbrev good_conn : Conn
good_conn = record {
  defensive = ok true;
  trusted_schema = ok false;
  exec_query_only = ok tt;
  validated = ok tt;
  authorizer = ok tt;
}

configure_connection-secures_example :
    ((rest : List Request) × (rest ++ (configure_connection good_conn query).1 ≡ securing query))
    × (((configure_connection good_conn query).0 ≡ ok tt) ↔ Agrees good_conn)
    × ((configure_connection good_conn query).0 ≡ ok tt
        → (configure_connection good_conn query).1 ≡ securing query)
configure_connection-secures_example = configure_connection-secures good_conn query
