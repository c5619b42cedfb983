-- ===== src/Context.antt =====
-- The values that pkg/common puts into a context.Context: the locale (i18n_helper.go), and the user
-- and session ids (context_keys.go). Each key has a type of its own, so no other package's value
-- can stand under it.
use msa_core.Prelude.{String, Option, none, some}

pub record Context : Type 0 where
  pub locale : Option String
  pub user_id_value : Option String
  pub session_id_value : Option String

abbrev pub background : Context
background = record { locale = none; user_id_value = none; session_id_value = none }

unfoldable pub get_locale_from_context : Context → String
get_locale_from_context ctx = elim ctx.locale [ some l ↦ l | none ↦ "vn" ]

unfoldable pub set_locale_in_context : Context → String → Context
set_locale_in_context ctx locale = record ctx { locale = some locale }

unfoldable pub with_user_id : Context → String → Context
with_user_id ctx user_id = record ctx { user_id_value = some user_id }

unfoldable pub user_id : Context → Option String
user_id ctx = ctx.user_id_value

unfoldable pub with_sid : Context → String → Context
with_sid ctx sid = record ctx { session_id_value = some sid }

unfoldable pub sid : Context → Option String
sid ctx = ctx.session_id_value
