-- ===== src/Tests/Tokens.antt =====
-- A token that is created, rotated and revoked, in a store that keeps one state.
use dataporch.Prelude.{◌≡◌, ◌≢◌, refl, ◌↔◌, List, [], ◌∷◌, ◌++◌, Option, none, some, arith}
use dataporch.Text.{Text, bytes}
use dataporch.Text.Base64
use dataporch.Fault.{ok, err, background}
use dataporch.Token.{
  state_none, state_active, Metadata, PersistedState, Store, TokenService, commit_active,
  zero_verifier, zero_metadata, may_create, may_rotate, generate_token, save_and_commit, create,
  rotate, delete_and_reset, revoke, verify,
}
use dataporch.Token.History.{Operation, create_call, rotate_call, run, verify-run}

abbrev pub Disk : Type 0
Disk = Option PersistedState

abbrev pub one_slot : Store Disk
one_slot = record {
  load = λ ctx disk. ok disk;
  save = λ ctx p disk. (ok tt, some p);
  delete = λ ctx disk. (ok tt, none);
}

-- A store that cannot delete.
abbrev stuck_slot : Store Disk
stuck_slot = record one_slot { delete = λ ctx disk. (err [], disk) }

abbrev pub digest : Text → Text
digest t = t ++ b'!' ∷ []

abbrev pub fresh : TokenService
fresh = record { state = state_none; verifier = zero_verifier; metadata = zero_metadata }

abbrev pub first_token : Text
first_token = bytes "dp-" ++ Base64.encode (bytes "abc")

abbrev first_metadata : Metadata
first_metadata = record { created_at = 5; rotated_at = none }

abbrev active : TokenService
active = commit_active (digest first_token) first_metadata

created :
    (create digest one_slot background (some (bytes "abc")) 5 fresh none).0
    ≡ ok (first_token, first_metadata)
unfolding create may_create generate_token save_and_commit
created = refl

active_present : active.state ≢ state_none
active_present h = ground (arith, h)

revoked : (revoke digest one_slot background active none).0 ≡ ok tt
unfolding revoke delete_and_reset
revoked = refl

not_created : (create digest one_slot background none 5 fresh none).0 ≡ err []
unfolding create may_create generate_token
not_created = refl

not_rotated : (rotate digest one_slot background none 9 active none).0 ≡ err []
unfolding rotate may_rotate generate_token
not_rotated = refl

not_revoked : (revoke digest stuck_slot background active none).0 ≡ err []
unfolding revoke delete_and_reset
not_revoked = refl

abbrev pub calls : List Operation
calls =
    create_call background (some (bytes "abc")) 5
    ∷ rotate_call background none 7
    ∷ rotate_call background (some (bytes "xyz")) 9
    ∷ []

pub fresh_inactive : fresh.state ≢ state_active
fresh_inactive h = ground (arith, h)

verify-run_example :
    (verify digest one_slot first_token (run digest one_slot calls none fresh none).1.0 ≡ ok tt) ↔ (
      (c : Text) × ((run digest one_slot calls none fresh none).0 ≡ some c)
      × (digest first_token ≡ digest c))
verify-run_example = verify-run digest one_slot calls fresh none first_token fresh_inactive
