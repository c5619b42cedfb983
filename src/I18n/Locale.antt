-- ===== src/I18n/Locale.antt =====
-- GetLocaleFromHeader of pkg/common/i18n_helper.go.
pub mod Laws
use Prim.Native.Char.{Char, code}
use Prim.Native.String.{[], ◌∷◌}
use msa_core.Prelude.{
  ℕ, ◌+◌, String, Bool, true, false, ◌&&◌, Option, none, some, List, ◌==◌, nat_beq, if◌then◌else◌,
}
use mathlib.Core.List.{List, [], ◌∷◌}
use msa_core.Prelude.Text.{split, trim_space}

-- `langCode[:idx]` for the first dash, unless that is the first character
until_dash : String → String
until_dash [] = []
until_dash (c ∷ s) = let rest = until_dash s in if nat_beq (code c) b'-' then [] else c ∷ rest

unfoldable pub drop_region : String → String
unfolding until_dash
drop_region [] = []
drop_region (c ∷ s) = if nat_beq (code c) b'-' then c ∷ s else c ∷ until_dash s

-- a character of the supported codes, of either case; U+0130 is the one other character whose
-- lower case is among them
abbrev lower_is : ℕ → Char → Bool
lower_is l c =
    if nat_beq (code c) l
    then true
    else if nat_beq (code c + 32) l
    then true
    else (nat_beq (code c) 0x130 && nat_beq l b'i')

-- `strings.ToLower(s) == w` for a code `w` of two lower-case letters, given by their numbers
unfoldable pub lower_equals : ℕ → ℕ → String → Bool
lower_equals l m [] = false
lower_equals l m (c ∷ []) = false
lower_equals l m (c ∷ d ∷ []) = lower_is l c && lower_is m d
lower_equals l m (c ∷ d ∷ e ∷ s) = false

-- `supportedLocales[strings.ToLower(langCode)]`
unfoldable pub supported : String → Option String
unfolding lower_equals
supported s =
    if lower_equals b'e' b'n' s
    then some "en"
    else if lower_equals b'v' b'n' s
    then some "vn"
    else if lower_equals b'v' b'i' s
    then some "vn"
    else none

abbrev pub first_part : List String → String
first_part [] = ""
first_part (w ∷ ws) = w

-- one element of the header: the code before the first semicolon, without its region
unfoldable pub locale_of_range : String → Option String
locale_of_range lang =
    supported (drop_region (trim_space (first_part (split b';' (trim_space lang)))))

unfoldable pub first_supported : List String → String
first_supported [] = "vn"
first_supported (lang ∷ langs) = elim (locale_of_range lang) [
  | some l ↦ l
  | none ↦ first_supported langs
]

-- `acceptLang` is the header's value, empty if there is none
unfoldable pub get_locale_from_header : String → String
get_locale_from_header accept_lang =
    if accept_lang == "" then "vn" else first_supported (split b',' accept_lang)
