-- ===== src/Validation/Checks.antt =====
-- Which values pass the checks, one by one and together.
use mathlib.Core.List.{append_assoc, append-nil}
use msa_core.Prelude.{
  ℕ, ◌≤◌, ◌≡◌, refl, sym, ◌∙◌, ◌≢◌, ◌↔◌, ◌⊎◌, inl, inr, String, Bool, true, false, not, ◌||◌,
  Option, none, some, List, [], ◌∷◌, ◌++◌, eq_iff, arith, All, is_some, Option-cases,
}
use msa_core.Prelude.Int.{pos}
use msa_core.Prelude.Text.{◌+++◌, trim_space, contains_char, strip_prefix}
use msa_core.Prelude.Text.Prefix.{strip_prefix_iff}
use msa_core.I18n.Manager.{Files, Global}
use msa_core.Response.{ErrorDetail}
use msa_core.Validation.{
  ValidationResult, text, is_empty_value, byte_length, is_valid_email, is_valid_url, checked,
  required, min_length, max_length, email, url, run_checks, collect, validate_multiple,
}

-- the details among the results of the checks, in order
abbrev pub present : List (Option ErrorDetail) → List ErrorDetail
present [] = []
present (none ∷ rules) = present rules
present (some e ∷ rules) = e ∷ present rules

collect-errors :
    (r : ValidationResult) (rules : List (Option ErrorDetail))
    → (collect r rules).errors ≡ r.errors ++ present rules
unfolding collect
collect-errors r [] = sym (append-nil r.errors)
collect-errors r (none ∷ rules) = collect-errors r rules
collect-errors r (some e ∷ rules) =
    collect-errors (record { is_valid = false; errors = r.errors ++ e ∷ [] }) rules
    ∙ append_assoc r.errors (e ∷ []) (present rules)

collect-false :
    (errors : List ErrorDetail) (rules : List (Option ErrorDetail))
    → (collect (record { is_valid = false; errors = errors }) rules).is_valid ≡ false
unfolding collect
collect-false errors [] = refl
collect-false errors (none ∷ rules) = collect-false errors rules
collect-false errors (some e ∷ rules) = collect-false (errors ++ e ∷ []) rules

collect-is_valid :
    (errors : List ErrorDetail) (rules : List (Option ErrorDetail))
    → ((collect (record { is_valid = true; errors = errors }) rules).is_valid ≡ true)
      ↔ All (λ r. r ≡ none) rules
unfolding collect
collect-is_valid errors [] = (λ h. tt, λ h. refl)
collect-is_valid errors (none ∷ rules) =
    let (to, from) = collect-is_valid errors rules in (λ h. (refl, to h), λ h. from h.1)
collect-is_valid errors (some e ∷ rules) = (
  λ h. let f = collect-false (errors ++ e ∷ []) rules in ground arith,
  λ h. let absent = h.0 in cc,
)

-- ValidateMultiple reports the details of all checks that failed, in the order of the checks, and
-- calls the result valid exactly when none has failed.
pub validate_multiple_lem :
    (rules : List (Option ErrorDetail))
    → ((validate_multiple rules).errors ≡ present rules)
      × (((validate_multiple rules).is_valid ≡ true) ↔ All (λ r. r ≡ none) rules)
unfolding validate_multiple
validate_multiple_lem rules =
    (collect-errors (record { is_valid = true; errors = [] }) rules, collect-is_valid [] rules)

checked-none :
    (fs : Files) (failed : Bool) (field shown message_key : String) (g : Global)
    → ((checked fs failed field shown message_key g).0 ≡ none) ↔ (failed ≡ false)
unfolding checked
checked-none fs failed field shown message_key g = ground arith

begins_iff :
    (p s : String) → (is_some (strip_prefix p s) ≡ true) ↔ ((rest : String) × (s ≡ p +++ rest))
begins_iff p s = (
  λ h. elim (Option-cases (strip_prefix p s)) [
    | inl e ↦ let h' = rw e at h in ground arith
    | inr (rest, e) ↦ (rest, (strip_prefix_iff p s rest).0 e)
  ],
  λ (rest, e). rw ((strip_prefix_iff p s rest).1 e) refl,
)

or_iff : (a b : Bool) → (not (a || b) ≡ false) ↔ ((a ≡ true) ⊎ (b ≡ true))
or_iff a b = ground arith

-- The URL check passes exactly the texts that begin with "http://" or "https://".
pub url_iff :
    (fs : Files) (field v message_key : String) (g : Global)
    → ((url fs field v message_key g).0 ≡ none) ↔ (
        ((rest : String) × (v ≡ "http://" +++ rest))
        ⊎ ((rest : String) × (v ≡ "https://" +++ rest)))
unfolding url is_valid_url
url_iff fs field v message_key g =
    let http = is_some (strip_prefix "http://" v) in
    let https = is_some (strip_prefix "https://" v) in
    (
      λ h.
          elim ((or_iff http https).0
            ((checked-none fs (not (http || https)) field v message_key g).0 h)) [
              | inl a ↦ inl ((begins_iff "http://" v).0 a)
              | inr b ↦ inr ((begins_iff "https://" v).0 b)
            ],
      λ h. (checked-none fs (not (http || https)) field v message_key g).1 (
          (or_iff http https).1 (elim h [
            | inl a ↦ inl ((begins_iff "http://" v).1 a)
            | inr b ↦ inr ((begins_iff "https://" v).1 b)
          ])),
    )

required_iff :
    (fs : Files) (field v key : String) (g : Global)
    → ((required fs field (text v) key g).0 ≡ none) ↔ (trim_space v ≢ "")
unfolding required is_empty_value checked
required_iff fs field v key g = ground (arith, eq_iff (trim_space v) "")

min_length_iff :
    (fs : Files) (field v key : String) (a : ℕ) (g : Global)
    → ((min_length fs field v (pos a) key g).0 ≡ none) ↔ (a ≤ byte_length v)
unfolding min_length checked
min_length_iff fs field v key a g = ground arith

max_length_iff :
    (fs : Files) (field v key : String) (a : ℕ) (g : Global)
    → ((max_length fs field v (pos a) key g).0 ≡ none) ↔ (byte_length v ≤ a)
unfolding max_length checked
max_length_iff fs field v key a g = ground arith

email_iff :
    (fs : Files) (field v key : String) (g : Global)
    → ((email fs field v key g).0 ≡ none)
      ↔ ((contains_char b'@' v ≡ true) × (contains_char b'.' v ≡ true))
unfolding email is_valid_email checked
email_iff fs field v key g = ground arith

-- A text field under Required, MinLength, MaxLength and Email, checked together: the result is
-- valid exactly when the text is not blank, has between `least` and `most` bytes, and holds an "@"
-- and a dot.
pub email_field_iff :
    (fs : Files) (field v key : String) (least most : ℕ) (g : Global)
    → ((validate_multiple
          (run_checks
            (required fs field (text v) key
              ∷ min_length fs field v (pos least) key
              ∷ max_length fs field v (pos most) key
              ∷ email fs field v key
              ∷ [])
            g).0).is_valid
        ≡ true)
      ↔ ((trim_space v ≢ "")
          × (least ≤ byte_length v)
          × (byte_length v ≤ most)
          × (contains_char b'@' v ≡ true)
          × (contains_char b'.' v ≡ true))
unfolding run_checks
email_field_iff fs field v key least most g =
    let checks =
      required fs field (text v) key
      ∷ min_length fs field v (pos least) key
      ∷ max_length fs field v (pos most) key
      ∷ email fs field v key
      ∷ [] in
    let (to, from) = (validate_multiple_lem (run_checks checks g).0).1 in
    (
      λ h.
          let (a, (b, (c, (d, _)))) = to h in
          let (at_sign, dot) = (email_iff fs field v key _).0 d in
          (
            (required_iff fs field v key g).0 a,
            (min_length_iff fs field v key least _).0 b,
            (max_length_iff fs field v key most _).0 c,
            at_sign,
            dot,
          ),
      λ (a, b, c, d, e). from (
        (required_iff fs field v key g).1 a,
        (
          (min_length_iff fs field v key least _).1 b,
          ((max_length_iff fs field v key most _).1 c, ((email_iff fs field v key _).1 (d, e), tt)),
        ),
      ),
    )
