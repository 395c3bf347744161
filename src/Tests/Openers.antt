-- ===== src/Tests/Openers.antt =====
-- An opener that opens a database, is told that it changed, and is closed while it opens it again.
use dataporch.Prelude.{◌≡◌, refl, true, [], none, some, arith}
use dataporch.Text.{Text, bytes, same}
use dataporch.Fault.{ok, wraps, runtime_closed}
use dataporch.Assoc.{lookup, insert, remove}
use dataporch.Connection.Definition.{validate}
use dataporch.Postgres.Opener.{
  Opener, OpenAttempt, Surroundings, refused, cached, joined, new_opener, acquire, start_attempt,
  attempt_at, update_attempt, create_pool, try_pool, current_entry, publish_attempt, reject_attempt,
  finish_attempt, run_attempt, detach_all, invalidate, close,
}
use dataporch.Postgres.Opener.Steps.{Reach, here, next, open_step, run_step, invalidate_step}
use dataporch.Postgres.Opener.Counts.{closings}
use dataporch.Postgres.Opener.Owned.{IsSound}
use dataporch.Postgres.Opener.Pools.{Reach-IsSound}
use dataporch.Postgres.Opener.Answers.{IsTold, opened_pool, run_attempt-IsTold}
use dataporch.Postgres.Opener.Laws.{close-Reach}

abbrev db : Text
db = bytes "db"

abbrev answering : Surroundings
answering = record {
  prepared = ok (record { id = db; kind = bytes "postgres"; settings = []; secrets = [] });
  created = ok true;
  pinged = ok tt;
  cause_prepared = none;
  cause_created = none;
  cause_pinged = none;
}

abbrev first_attempt : OpenAttempt
first_attempt = record { id = db; generation = 0; cancelled = none; outcome = none }

abbrev second_attempt : OpenAttempt
second_attempt = record first_attempt { generation = 1; cancelled = some (wraps runtime_closed) }

abbrev waiting : Opener
waiting = (acquire db new_opener).1

abbrev connected : Opener
connected = run_attempt 0 first_attempt answering waiting

abbrev changed : Opener
changed = invalidate db connected

abbrev again : Opener
again = (acquire db changed).1

abbrev late : Opener
late = run_attempt 1 second_attempt answering (close again)

connected_answer : (acquire db connected).0 ≡ cached 0
unfolding acquire start_attempt run_attempt create_pool try_pool finish_attempt current_entry
    publish_attempt reject_attempt lookup insert update_attempt invalidate close detach_all
    attempt_at same new_opener remove validate
connected_answer = refl

again_answer : (acquire db changed).0 ≡ joined 1
unfolding acquire start_attempt run_attempt create_pool try_pool finish_attempt current_entry
    publish_attempt reject_attempt lookup insert update_attempt invalidate close detach_all
    attempt_at same new_opener remove validate
again_answer = refl

Reach-waiting : Reach new_opener waiting
Reach-waiting = next here (open_step db new_opener)

first_known : attempt_at 0 waiting.attempts ≡ some first_attempt
unfolding acquire start_attempt attempt_at lookup new_opener
first_known = refl

Reach-again : Reach new_opener again
Reach-again =
    next
      (next (next Reach-waiting (run_step 0 first_attempt answering waiting first_known refl))
        (invalidate_step db connected))
      (open_step db changed)

second_known : attempt_at 1 (close again).attempts ≡ some second_attempt
unfolding acquire start_attempt run_attempt create_pool try_pool finish_attempt current_entry
    publish_attempt reject_attempt lookup insert update_attempt invalidate close detach_all
    attempt_at same new_opener remove validate
second_known = refl

made_late : late.made ≡ 2
unfolding acquire start_attempt run_attempt create_pool try_pool finish_attempt current_entry
    publish_attempt reject_attempt lookup insert update_attempt invalidate close detach_all
    attempt_at same new_opener remove validate
made_late = refl

Reach-late : Reach (close again) late
Reach-late = next here (run_step 1 second_attempt answering (close again) second_known refl)

Reach-IsSound_example : IsSound again
Reach-IsSound_example = Reach-IsSound Reach-again

run_attempt-IsTold_example :
    IsTold 0 first_attempt (opened_pool db answering waiting.made) waiting connected
run_attempt-IsTold_example = run_attempt-IsTold 0 first_attempt answering waiting first_known

close-Reach_example : (closings 1 late.closing ≡ 1) × ((acquire db late).0 ≡ refused)
close-Reach_example = close-Reach db 1 Reach-again Reach-late (ground (arith, made_late))
