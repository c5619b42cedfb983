-- ===== src/Validation/Tests.antt =====
-- Runs of the checks on concrete texts.
use msa_core.Prelude.{◌≤◌, ◌≡◌, refl, ◌≢◌, ◌↔◌, true, false, none, [], ◌∷◌}
use msa_core.Prelude.Int.{pos}
use msa_core.Validation.Uuid.{is_valid_uuid, well_shaped}
use msa_core.Prelude.Text.{split, trim_space, contains_char}
use msa_core.I18n.Manager.{Files}
use msa_core.Response.{ErrorDetail}
use msa_core.Validation.{
  text, byte_length, required, min_length, max_length, email, run_checks, validate_multiple,
}
use msa_core.Validation.Checks.{email_field_iff}

abbrev no_files : Files
no_files = record {
  i18n_dir = "";
  source_dir = none;
  join = λ dir file. file;
  exists = λ path. false;
  read_file = λ path. none;
  unmarshal = λ body. none;
}

abbrev too_short : ErrorDetail
too_short = record { field = "name"; message = "too short"; value = "a" }

email_field_iff_example :
    ((validate_multiple
        (run_checks
          (required no_files "email" (text "a@x.vn") "k"
            ∷ min_length no_files "email" "a@x.vn" (pos 3) "k"
            ∷ max_length no_files "email" "a@x.vn" (pos 20) "k"
            ∷ email no_files "email" "a@x.vn" "k"
            ∷ [])
          none).0).is_valid
      ≡ true)
    ↔ ((trim_space "a@x.vn" ≢ "")
        × (3 ≤ byte_length "a@x.vn")
        × (byte_length "a@x.vn" ≤ 20)
        × (contains_char b'@' "a@x.vn" ≡ true)
        × (contains_char b'.' "a@x.vn" ≡ true))
email_field_iff_example = email_field_iff no_files "email" "a@x.vn" "k" 3 20 none

-- the letters need not be hexadecimal digits
letters_accepted : is_valid_uuid "zzzzzzzz-zzzz-zzzz-zzzz-zzzzzzzzzzzz" ≡ true
unfolding is_valid_uuid well_shaped split byte_length
letters_accepted = refl

undashed_refused : is_valid_uuid "123e4567e89b12d3a456426614174000abcd" ≡ false
unfolding is_valid_uuid well_shaped split byte_length
undashed_refused = refl
