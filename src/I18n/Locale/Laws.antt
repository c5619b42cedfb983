-- ===== src/I18n/Locale/Laws.antt =====
-- Which locale the Accept-Language header gives.
use Prim.Native.Char.{Char}
use Prim.Native.String.{[], ◌∷◌}
use text.Mathlib.TextLemmas.{append-ne-nil_of_right_ne-nil, cons-ne-nil}
use msa_core.Prelude.{
  Option, ◌≡◌, refl, ◌⊎◌, ◌∙◌, ap, inl, inr, String, none, some, List, [], ◌∷◌, ◌==◌, eq_iff, arith,
  Option-cases, Bool-cases,
}
use msa_core.Prelude.Text.{◌+++◌, split, trim_left, trim_right, trim_space}
use msa_core.Prelude.Text.Trim.{
  semicolon, trim_left-semicolon, trim_right-semicolon, trim_left-trim_left, trim_left-Lacks,
  Lacks-append,
}
use msa_core.Prelude.Text.Split.{Lacks, split-append}
use msa_core.I18n.Locale.{
  drop_region, supported, locale_of_range, first_supported, get_locale_from_header,
}

abbrev pub IsLocale : String → Type 0
IsLocale l = (l ≡ "en") ⊎ (l ≡ "vn")

supported-IsLocale : (s l : String) → supported s ≡ some l → IsLocale l
unfolding supported
supported-IsLocale s l h = ground arith

locale_of_range-IsLocale : (lang l : String) → locale_of_range lang ≡ some l → IsLocale l
unfolding locale_of_range
locale_of_range-IsLocale lang l e = supported-IsLocale _ l e

first_supported-IsLocale : (langs : List String) → IsLocale (first_supported langs)
unfolding first_supported
first_supported-IsLocale [] = inr refl
first_supported-IsLocale (lang ∷ langs) = elim (Option-cases (locale_of_range lang)) [
  | inl e ↦ rw (e, first_supported) (first_supported-IsLocale langs)
  | inr (l, e) ↦ rw (e, first_supported) (locale_of_range-IsLocale lang l e)
]

get_locale_from_header-IsLocale : (header : String) → IsLocale (get_locale_from_header header)
unfolding get_locale_from_header
get_locale_from_header-IsLocale header = elim (Bool-cases (header == "")) [
  | inl e ↦ rw e (inr refl)
  | inr e ↦ rw e (first_supported-IsLocale (split b',' header))
]

-- the locale that was found, or else the next one
abbrev pub or_locale : Option String → String → String
or_locale (some l) next = l
or_locale none next = next

abbrev pub comma : Char
comma = ","

first_supported-some :
    (range l : String) (langs : List String)
    → locale_of_range range ≡ some l
    → first_supported (range ∷ langs) ≡ l
unfolding first_supported
first_supported-some range l langs e = rw (e, first_supported)

first_supported-none :
    (range : String) (langs : List String)
    → locale_of_range range ≡ none
    → first_supported (range ∷ langs) ≡ first_supported langs
unfolding first_supported
first_supported-none range langs e = rw (e, first_supported)

get_locale_from_header-append :
    (range rest : String)
    → Lacks b',' range
    → get_locale_from_header (range +++ (comma ∷ rest)) ≡ first_supported (range ∷ split b',' rest)
unfolding get_locale_from_header
get_locale_from_header-append range rest h = elim (Bool-cases ((range +++ (comma ∷ rest)) == "")) [
  | inl e ↦ absurd (append-ne-nil_of_right_ne-nil range (cons-ne-nil comma rest) ((eq_iff _ _).0 e))
  | inr e ↦ rw e (ap first_supported (split-append comma range rest h))
]

-- the locale of a language without a quality value
abbrev pub language : String → Option String
language lang = supported (drop_region (trim_space lang))

locale_of_range-semicolon :
    (lang q : String) → Lacks b';' lang → locale_of_range (lang +++ (semicolon ∷ q)) ≡ language lang
unfolding locale_of_range trim_space
locale_of_range-semicolon lang q h =
    rw (trim_left-semicolon lang q, trim_right-semicolon (trim_left lang) q)
      (rw
        (
          split-append semicolon (trim_left lang) (trim_right q) (trim_left-Lacks b';' lang h),
          trim_left-trim_left lang,
        )
        refl)

get_locale_from_header-split :
    (header : String) → get_locale_from_header header ≡ first_supported (split b',' header)
unfolding get_locale_from_header first_supported split locale_of_range supported drop_region
    trim_space
get_locale_from_header-split header = elim (Bool-cases (header == "")) [
  | inl e ↦ rw ((eq_iff header "").0 e) refl
  | inr e ↦ rw e refl
]

-- The answer is one of the two locales of the system, whatever the header holds. The elements are
-- tried in order, and a quality value plays no part, whatever it says: when the first element is a
-- language with a parameter after a semicolon the answer is the locale of the language, and, if the
-- language is not supported, the answer for the rest of the header. The language has no comma and no
-- semicolon in it, and the parameter no comma.
pub header_first_supported :
    (lang q rest : String)
    → Lacks b',' lang
    → Lacks b';' lang
    → Lacks b',' q
    → IsLocale (get_locale_from_header rest)
      × (get_locale_from_header ((lang +++ (semicolon ∷ q)) +++ (comma ∷ rest))
          ≡ or_locale (language lang) (get_locale_from_header rest))
header_first_supported lang q rest plain plain' plain_q = (
  get_locale_from_header-IsLocale rest,
  get_locale_from_header-append (lang +++ (semicolon ∷ q)) rest
        (Lacks-append b',' lang (semicolon ∷ q) plain (omega arith, plain_q))
      ∙ elim (Option-cases (language lang)) [
        | inl e ↦
            rw (e, get_locale_from_header-split rest)
              (first_supported-none (lang +++ (semicolon ∷ q)) (split b',' rest)
                (locale_of_range-semicolon lang q plain' ∙ e))
        | inr (l, e) ↦ rw e (
            first_supported-some (lang +++ (semicolon ∷ q)) l (split b',' rest)
              (locale_of_range-semicolon lang q plain' ∙ e))
      ],
)
