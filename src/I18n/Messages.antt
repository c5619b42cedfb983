-- ===== src/I18n/Messages.antt =====
-- The nested message map of I18nManager and GetMessage, of pkg/common/i18n.go.
use msa_core.Prelude.{String, Option, none, some, List, [], ◌∷◌, ◌==◌, if◌then◌else◌}
use msa_core.Prelude.Text.{split}

-- a decoded JSON value, as far as it is told apart: `map[string]any`, a string, anything else
mutual
  pub data Value : Type 0 where
    str : String → Value
    obj : Messages → Value
    other : Value

  pub data Messages : Type 0 where
    nil : Messages
    entry : String → Value → Messages → Messages

-- `m[key]`
unfoldable pub member : Messages → String → Option Value
member nil key = none
member (entry k v m) key = if k == key then some v else member m key

-- the loop over the keys, from `current`; `none` where the code returns the key path itself
unfoldable pub walk : Messages → List String → Option String
walk current [] = none
walk current (key ∷ []) = elim (member current key) [ some (str s) ↦ some s | _ ↦ none ]
walk current (key ∷ next ∷ keys) = elim (member current key) [
  | some (obj m) ↦ walk m (next ∷ keys)
  | _ ↦ none
]

abbrev pub or_key : Option String → String → String
or_key none key = key
or_key (some s) key = s

unfoldable pub get_message : Messages → String → String
get_message messages key_path = or_key (walk messages (split b'.' key_path)) key_path

unfoldable pub get_message_with_fallback : Messages → String → String → String
get_message_with_fallback messages key_path fallback =
    let message = get_message messages key_path in if message == key_path then fallback else message
