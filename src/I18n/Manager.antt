-- ===== src/I18n/Manager.antt =====
-- I18nManager, the global manager and the context helpers, of pkg/common/i18n.go and
-- i18n_helper.go. The file system, the environment and the JSON decoder are a parameter. A function
-- that reads the global manager may create it, so it returns the manager too.
use msa_core.Prelude.{String, Bool, Option, none, some, List, [], ◌∷◌, ◌++◌, ◌==◌, if◌then◌else◌}
use msa_core.Prelude.Text.{◌+++◌}
use msa_core.Prelude.Result.{Error, error, wrap, Result, ok, err}
use msa_core.I18n.Messages.{Messages, nil, get_message, get_message_with_fallback}
use msa_core.Context.{Context, get_locale_from_context}

pub record Files : Type 0 where
  -- the value of I18N_DIR, empty if unset
  pub i18n_dir : String
  -- the i18n directory beside the caller's source file, where it can be found
  pub source_dir : Option String
  pub join : String → String → String
  pub exists : String → Bool
  pub read_file : String → Option String
  pub unmarshal : String → Option Messages

pub record Manager : Type 0 where
  pub messages : Messages
  pub locale : String

abbrev source_dirs : Option String → List String
source_dirs none = []
source_dirs (some d) = d ∷ []

-- `possiblePaths`: the environment, the sources, the container, the working directory
unfoldable pub possible_paths : Files → List String
possible_paths fs =
    (if fs.i18n_dir == "" then [] else fs.i18n_dir ∷ [])
    ++ (source_dirs fs.source_dir ++ "/src/i18n" ∷ "src/i18n" ∷ [])

-- one turn of the loop: the messages, or on to the next path
unfoldable pub load_from : Files → String → String → Option Messages
load_from fs locale dir =
    if dir == ""
    then none
    else if fs.exists (fs.join dir (locale +++ ".json"))
    then (elim (fs.read_file (fs.join dir (locale +++ ".json"))) [
      | none ↦ none
      | some text ↦ fs.unmarshal text
    ])
    else none

unfoldable pub first_loaded : Files → String → List String → Option Messages
first_loaded fs locale [] = none
first_loaded fs locale (dir ∷ dirs) = elim (load_from fs locale dir) [
  | some m ↦ some m
  | none ↦ first_loaded fs locale dirs
]

-- `loadMessages`, the receiver given and returned; the error's list of paths is left out
unfoldable pub load_messages : Files → String → Manager → Option Error × Manager
load_messages fs locale i = elim (first_loaded fs locale (possible_paths fs)) [
  | some m ↦ (none, record i { messages = m })
  | none ↦ (some (error ("failed to find i18n file for locale " +++ locale)), i)
]

unfoldable pub new_manager : Files → String → Result Manager
new_manager fs locale =
    let (e, i) = load_messages fs locale (record { messages = nil; locale = locale }) in
    elim e [
      | none ↦ ok i
      | some x ↦ err (wrap ("failed to load messages for locale " +++ locale) x)
    ]

-- the locale is set before the messages are loaded
unfoldable pub set_locale : Files → String → Manager → Option Error × Manager
set_locale fs locale i = load_messages fs locale (record i { locale = locale })

-- the global variable, nil at first
abbrev pub Global : Type 0
Global = Option Manager

-- `GetGlobalI18n`: the manager, which the variable then holds
unfoldable pub get_global : Files → Global → Manager
get_global fs (some i) = i
get_global fs none = elim (new_manager fs "en") [
  | ok i ↦ i
  | err e ↦ record { messages = nil; locale = "en" }
]

-- `T`
unfoldable pub translate : Files → String → Global → String × Global
translate fs key g = let i = get_global fs g in (get_message i.messages key, some i)

-- `TWithFallback`
unfoldable pub translate_with_fallback : Files → String → String → Global → String × Global
translate_with_fallback fs key fallback g =
    let i = get_global fs g in (get_message_with_fallback i.messages key fallback, some i)

-- the manager that TWithContext asks: one made for the context's locale, or else the global one
unfoldable pub manager_for : Files → Context → Manager → Manager
manager_for fs ctx i =
    if get_locale_from_context ctx == i.locale
    then i
    else elim (new_manager fs (get_locale_from_context ctx)) [ ok j ↦ j | err e ↦ i ]

-- `TWithContext`
unfoldable pub translate_with_context : Files → Context → String → Global → String × Global
translate_with_context fs ctx key g =
    let i = get_global fs g in (get_message (manager_for fs ctx i).messages key, some i)

-- `TWithContextAndFallback`
unfoldable pub translate_with_context_and_fallback :
    Files → Context → String → String → Global → String × Global
translate_with_context_and_fallback fs ctx key fallback g =
    let i = get_global fs g in
    (get_message_with_fallback (manager_for fs ctx i).messages key fallback, some i)
