-- ===== src/Validation.antt =====
-- pkg/common/validation_helper.go, and HandleValidation of pkg/common/base_controller.go. The
-- checks of numbers take the order of float64 and the decimal form of a number as arguments.
pub mod Uuid
pub mod Checks
mod Tests
use Prim.Native.Char.{code}
use Prim.Native.String.{[], ◌∷◌}
use msa_core.Prelude.{
  ℕ, ◌+◌, String, Bool, true, false, not, ◌&&◌, ◌||◌, Option, none, some, List, [], ◌∷◌, ◌++◌, ◌==◌,
  ltb, nat_beq, is_some, if◌then◌else◌,
}
use mathlib.Core.List.{List, [], ◌∷◌}
use msa_core.Prelude.Int.{ℤ, pos, ltb_ℤ}
use msa_core.Prelude.Text.{trim_space, contains_char, strip_prefix}
use msa_core.I18n.Manager.{Files, Global, translate}
use msa_core.Response.Code
use msa_core.Response.{ErrorDetail}
use msa_core.Controller.Reply.{Request, Handled, error_with_details}

pub record ValidationResult : Type 0 where
  pub is_valid : Bool
  pub errors : List ErrorDetail

-- A value of any type, by the kinds that are told apart. All but a text come with what
-- reflect.Value.String gives for them; a collection has its length, a pointer whether it is nil.
pub data Value : Type 0 where
  nil : Value
  text : String → Value
  collection : ℕ → String → Value
  pointer : Bool → String → Value
  plain : String → Value

unfoldable pub is_empty_value : Value → Bool
is_empty_value nil = true
is_empty_value (text s) = trim_space s == ""
is_empty_value (collection n s) = nat_beq n 0
is_empty_value (pointer is_nil s) = is_nil
is_empty_value (plain s) = false

unfoldable pub to_string : Value → String
to_string nil = ""
to_string (text s) = trim_space s
to_string (collection n s) = trim_space s
to_string (pointer is_nil s) = trim_space s
to_string (plain s) = trim_space s

-- `len(s)`: the bytes of the text in UTF-8
unfoldable pub byte_length : String → ℕ
byte_length [] = 0
byte_length (c ∷ s) =
    (if ltb (code c) 0x80
      then 1
      else if ltb (code c) 0x800
      then 2
      else if ltb (code c) 0x10000
      then 3
      else 4)
    + byte_length s

unfoldable pub is_valid_email : String → Bool
is_valid_email email = contains_char b'@' email && contains_char b'.' email

unfoldable pub is_valid_url : String → Bool
is_valid_url url = is_some (strip_prefix "http://" url) || is_some (strip_prefix "https://" url)

-- a check: a detail if it fails, and the global manager, which T may have created
abbrev pub Check : Type 0
Check = Global → Option ErrorDetail × Global

-- what the checks share: the detail with the translated message when the test has failed
unfoldable pub checked : Files → Bool → String → String → String → Check
checked fs failed field shown message_key g =
    if failed
    then (let (message, g') = translate fs message_key g in
        (some (record { field = field; message = message; value = shown }), g'))
    else (none, g)

module _ (fs : Files) (field : String) where
  unfoldable pub required : Value → String → Check
  required v = checked fs (is_empty_value v) field (to_string v)

  unfoldable pub min_length : String → ℤ → String → Check
  min_length v least = checked fs (ltb_ℤ (pos (byte_length v)) least) field v

  unfoldable pub max_length : String → ℤ → String → Check
  max_length v most = checked fs (ltb_ℤ most (pos (byte_length v))) field v

  unfoldable pub min_value : {N : Type 0} → (N → N → Bool) → (N → String) → N → N → String → Check
  min_value less decimal v least = checked fs (less v least) field (decimal v)

  unfoldable pub max_value : {N : Type 0} → (N → N → Bool) → (N → String) → N → N → String → Check
  max_value less decimal v most = checked fs (less most v) field (decimal v)

  unfoldable pub email : String → String → Check
  email v = checked fs (not (is_valid_email v)) field v

  unfoldable pub url : String → String → Check
  url v = checked fs (not (is_valid_url v)) field v

  unfoldable pub custom : Value → (Value → Bool) → String → Check
  custom v validator = checked fs (not (validator v)) field (to_string v)

-- the arguments of ValidateMultiple are evaluated in order
unfoldable pub run_checks : List Check → Global → List (Option ErrorDetail) × Global
run_checks [] g = ([], g)
run_checks (check ∷ checks) g =
    let (detail, g') = check g in
    let (details, g'') = run_checks checks g' in (detail ∷ details, g'')

-- the loop, with what it has collected
unfoldable pub collect : ValidationResult → List (Option ErrorDetail) → ValidationResult
collect result [] = result
collect result (none ∷ rules) = collect result rules
collect result (some e ∷ rules) =
    collect (record { is_valid = false; errors = result.errors ++ e ∷ [] }) rules

unfoldable pub validate_multiple : List (Option ErrorDetail) → ValidationResult
validate_multiple = collect (record { is_valid = true; errors = [] })

-- `none` where no reply is written
unfoldable pub handle_validation :
    {D : Type 0} → Files → ℕ → Request → ValidationResult → String → Global → Option (Handled D)
handle_validation fs now c result message_key g =
    if not result.is_valid
    then some (error_with_details fs now c Code.validation_error message_key result.errors g)
    else none
