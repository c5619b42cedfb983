-- ===== src/I18n/Tests.antt =====
-- Runs of the i18n model on a small message file and concrete headers.
use Prim.Native.String.{◌∷◌}
use msa_core.Prelude.{String, ◌≡◌, ◌≢◌, refl, true, eq_iff, none, some, [], ◌∷◌, ◌==◌, arith}
use msa_core.Prelude.Text.{◌+++◌, split, trim_space}
use msa_core.Prelude.Text.Trim.{semicolon}
use msa_core.Prelude.Text.Split.{Lacks}
use msa_core.Prelude.Result.{Error}
use msa_core.Context.{background, set_locale_in_context}
use msa_core.I18n.Messages.{str, obj, Messages, nil, entry, member, walk, get_message}
use msa_core.I18n.Manager.{
  Files, Manager, possible_paths, load_from, first_loaded, set_locale, translate_with_context,
}
use msa_core.I18n.Locale.{
  locale_of_range, first_supported, supported, drop_region, get_locale_from_header,
}
use msa_core.I18n.Locale.Laws.{comma, language, IsLocale, or_locale, header_first_supported}
use msa_core.I18n.Lookup.{set_locale_drift}

abbrev english : Messages
english = entry "response" (obj (entry "ok" (str "Done") nil)) nil

-- only en.json exists
abbrev english_only : Files
english_only = record {
  i18n_dir = "/i18n";
  source_dir = none;
  join = λ dir file. file;
  exists = λ path. path == "en.json";
  read_file = λ path. some "{}";
  unmarshal = λ text. some english;
}

abbrev english_manager : Manager
english_manager = record { messages = english; locale = "en" }

found_message : walk english ("response" ∷ "ok" ∷ []) ≡ some "Done"
unfolding walk member
found_message = refl

no_vietnamese : first_loaded english_only "vn" (possible_paths english_only) ≡ none
unfolding first_loaded possible_paths load_from
no_vietnamese = refl

-- the file vn.json has been added
abbrev vn : String
vn = "vn"

abbrev vietnamese : Messages
vietnamese = entry "response" (obj (entry "ok" (str "Xong") nil)) nil

abbrev both : Files
both = record english_only { exists = λ path. true; unmarshal = λ text. some vietnamese }

vietnamese_found : first_loaded both "vn" (possible_paths both) ≡ some vietnamese
unfolding first_loaded possible_paths load_from
vietnamese_found = refl

vn-not-en : vn ≢ "en"
vn-not-en = ground (arith, eq_iff "vn" "en")

set_locale_drift_example :
    ((e : Error) × ((set_locale english_only "vn" english_manager).0 ≡ some e))
    × ((translate_with_context both
          (set_locale_in_context background "vn")
          "response.ok"
          (some english_manager)).0
        ≡ get_message vietnamese "response.ok")
    × ((translate_with_context both
          (set_locale_in_context background "vn")
          "response.ok"
          (some (set_locale english_only "vn" english_manager).1)).0
        ≡ get_message english "response.ok")
set_locale_drift_example =
    set_locale_drift english_only both "vn" "response.ok" english_manager background vietnamese
      no_vietnamese vietnamese_found vn-not-en

english_no_comma : Lacks b',' "en-US"
english_no_comma = ground arith

english_no_semicolon : Lacks b';' "en-US"
english_no_semicolon = ground arith

low_quality_no_comma : Lacks b',' "q=0.1"
low_quality_no_comma = ground arith

header_first_supported_example :
    IsLocale (get_locale_from_header "vi;q=0.9")
    × (get_locale_from_header (("en-US" +++ (semicolon ∷ "q=0.1")) +++ (comma ∷ "vi;q=0.9"))
        ≡ or_locale (language "en-US") (get_locale_from_header "vi;q=0.9"))
header_first_supported_example =
    header_first_supported "en-US" "q=0.1" "vi;q=0.9" english_no_comma english_no_semicolon
      low_quality_no_comma

low_quality_wins : get_locale_from_header "en-US;q=0.1,vi;q=0.9" ≡ "en"
unfolding get_locale_from_header first_supported locale_of_range supported drop_region split
    trim_space
low_quality_wins = refl
