-- ===== src/Connection/Definition/Laws.antt =====
-- What `Definition.Validate` of internal/connection/definition.go accepts.
use dataporch.Prelude.{
  ℕ, ◌≤◌, ◌<◌, ◌≡◌, refl, ◌↔◌, inl, inr, Bool, true, false, [], ◌∷◌, none, arith, all, length,
}
use dataporch.Text.{Text}
use dataporch.Text.Utf8.{is_blank, all-runes}
use dataporch.Fault.{Fault, Checked, ok, err, ◌>>◌, require, Result-cases}
use dataporch.Assoc.{Assoc, lookup, Each}
use dataporch.Secret.Reference.{parse}
use dataporch.Connection.Definition.{
  Definition, is_valid_id, is_valid_id_character, is_valid_field_name, max_id_length, validate,
  validate_settings, validate_ref, validate_refs, invalid,
}

-- An identifier: 1 to 128 bytes, each an ASCII letter or digit, a dot, an underscore or a dash.
pub record IsId (id : Text) : Type 0 where
  pub not_empty : 0 < length id
  pub fits : length id ≤ max_id_length
  pub characters : all is_valid_id_character id ≡ true

id_character_ascii : (r : ℕ) → is_valid_id_character r ≡ true → r < 0x80
unfolding is_valid_id_character
id_character_ascii r h = ground arith

pub is_valid_id-IsId : (id : Text) → (is_valid_id id ≡ true) ↔ IsId id
unfolding is_valid_id
is_valid_id-IsId id = let e = all-runes is_valid_id_character id_character_ascii id in ground arith

pub record IsSecret (settings : Assoc Text) (name ref : Text) : Type 0 where
  pub valid_name : is_valid_field_name name ≡ true
  pub apart : lookup name settings ≡ none
  pub valid_ref : parse ref ≡ ok ref

pub record IsWellFormed (d : Definition) : Type 0 where
  pub valid_id : IsId d.id
  pub valid_kind : is_blank d.kind ≡ false
  pub valid_settings : Each (λ name v. is_valid_field_name name ≡ true) d.settings
  pub valid_secrets : Each (IsSecret d.settings) d.secret_refs

validate_settings-Each :
    (s : Assoc Text)
    → (validate_settings s ≡ ok tt) ↔ Each (λ name v. is_valid_field_name name ≡ true) s
unfolding validate_settings
validate_settings-Each [] = (λ h. tt, λ h. refl)
validate_settings-Each ((name, v) ∷ s) = let ih = validate_settings-Each s in ground arith

parse_self : (raw r : Text) → parse raw ≡ ok r → r ≡ raw
unfolding parse
parse_self raw r h = ground arith

validate_ref-IsSecret :
    (settings : Assoc Text) (name ref : Text)
    → (validate_ref settings name ref ≡ ok tt) ↔ IsSecret settings name ref
unfolding validate_ref
validate_ref-IsSecret settings name ref = elim (Result-cases (parse ref)) [
  | inl (r, e) ↦ let p = parse_self ref r e in ground arith
  | inr (x, e) ↦ ground arith
]

validate_refs-Each :
    (settings refs : Assoc Text)
    → (validate_refs settings refs ≡ ok tt) ↔ Each (IsSecret settings) refs
unfolding validate_refs
validate_refs-Each settings [] = (λ h. tt, λ h. refl)
validate_refs-Each settings ((name, ref) ∷ refs) =
    ground (arith, validate_refs-Each settings refs, validate_ref-IsSecret settings name ref)

-- Validation succeeds exactly on the well-formed definitions.
pub validate-IsWellFormed : (d : Definition) → (validate d ≡ ok tt) ↔ IsWellFormed d
unfolding validate
validate-IsWellFormed d = ground (
  arith,
  is_valid_id-IsId d.id,
  validate_settings-Each d.settings,
  validate_refs-Each d.settings d.secret_refs,
)

-- A check that fails in one way only.
abbrev FailsInvalid : Checked → Type 0
FailsInvalid m = (e : Fault) → m ≡ err e → e ≡ invalid

require-FailsInvalid : (b : Bool) → FailsInvalid (require b invalid)
require-FailsInvalid b e h = ground arith

>>-FailsInvalid : (m k : Checked) → FailsInvalid m → FailsInvalid k → FailsInvalid (m >> k)
>>-FailsInvalid (ok tt) k hm hk e h = hk e h
>>-FailsInvalid (err x) k hm hk e h = hm e h

validate_ref-FailsInvalid :
    (settings : Assoc Text) (name ref : Text) → FailsInvalid (validate_ref settings name ref)
unfolding validate_ref
validate_ref-FailsInvalid settings name ref e h = ground arith

validate_settings-FailsInvalid : (s : Assoc Text) → FailsInvalid (validate_settings s)
unfolding validate_settings
validate_settings-FailsInvalid [] = λ e h. cc
validate_settings-FailsInvalid ((name, v) ∷ s) =
    >>-FailsInvalid _ _ (require-FailsInvalid _) (validate_settings-FailsInvalid s)

validate_refs-FailsInvalid :
    (settings refs : Assoc Text) → FailsInvalid (validate_refs settings refs)
unfolding validate_refs
validate_refs-FailsInvalid settings [] = λ e h. cc
validate_refs-FailsInvalid settings ((name, ref) ∷ refs) =
    >>-FailsInvalid _ _ (validate_ref-FailsInvalid settings name ref)
      (validate_refs-FailsInvalid settings refs)

-- A refused definition has the one error `ErrInvalidDefinition`.
pub validate-FailsInvalid : (d : Definition) (e : Fault) → validate d ≡ err e → e ≡ invalid
unfolding validate
validate-FailsInvalid d = >>-FailsInvalid _ _ (require-FailsInvalid _) (
    >>-FailsInvalid _ _ (require-FailsInvalid _) (
      >>-FailsInvalid _ _ (validate_settings-FailsInvalid d.settings)
        (validate_refs-FailsInvalid d.settings d.secret_refs)))
