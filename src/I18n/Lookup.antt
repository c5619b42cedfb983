-- ===== src/I18n/Lookup.antt =====
-- GetMessage against a relation that says which message a path leads to, and what a failed change
-- of locale leaves behind.
use msa_core.Prelude.{
  ◌≡◌, ◌≢◌, refl, ◌↔◌, ◌==◌, eq_iff, Bool-cases, inl, inr, String, Option, none, some, List, [],
  ◌∷◌, arith,
}
use text.Mathlib.TextPositions.{eq_refl}
use msa_core.Prelude.Text.{◌+++◌}
use msa_core.Prelude.Result.{Error, error, ok}
use msa_core.I18n.Messages.{Value, str, obj, other, Messages, nil, member, walk, get_message}
use msa_core.I18n.Manager.{
  Files, Manager, possible_paths, first_loaded, load_messages, new_manager, get_global, set_locale,
  manager_for, translate_with_context,
}
use msa_core.Context.{Context, get_locale_from_context, set_locale_in_context}

-- The keys name one map inside the other, and the last one a string.
pub data Leads : Messages → List String → String → Type 0 where
  last : {m : Messages} {key s : String} → member m key ≡ some (str s) → Leads m (key ∷ []) s
  deeper :
      {m sub : Messages} {key next s : String} {keys : List String}
      → member m key ≡ some (obj sub)
      → Leads sub (next ∷ keys) s
      → Leads m (key ∷ next ∷ keys) s

walk_complete :
    {m : Messages} {keys : List String} {s : String} → Leads m keys s → walk m keys ≡ some s
unfolding walk
walk_complete (last e) = rw (e, walk)
walk_complete (deeper e l) = rw (e, walk) (walk_complete l)

-- one step down, by the value that stands under the key
walk_step :
    (m : Messages) (key next : String) (keys : List String) (s : String) (o : Option Value)
    → member m key ≡ o
    → walk m (key ∷ next ∷ keys) ≡ some s
    → (sub : Messages) × (member m key ≡ some (obj sub)) × (walk sub (next ∷ keys) ≡ some s)
unfolding walk
walk_step m key next keys s (some (obj sub)) e h = (sub, e, rw (e, walk) at h)
walk_step m key next keys s (some (str x)) e h = let h' = rw (e, walk) at h in cc
walk_step m key next keys s (some other) e h = let h' = rw (e, walk) at h in cc
walk_step m key next keys s none e h = let h' = rw (e, walk) at h in cc

walk_sound :
    (m : Messages) (keys : List String) (s : String) → walk m keys ≡ some s → Leads m keys s
unfolding walk
walk_sound m [] s h = cc
walk_sound m (key ∷ []) s h = last (ground arith)
walk_sound m (key ∷ next ∷ keys) s h =
    let (sub, e, h') = walk_step m key next keys s (member m key) refl h in
    deeper e (walk_sound sub (next ∷ keys) s h')

-- The walk of GetMessage finds a string exactly when the keys lead to it: each key but the last
-- names a map, and the last one the string.
pub walk_iff :
    (m : Messages) (keys : List String) (s : String) → (walk m keys ≡ some s) ↔ Leads m keys s
walk_iff m keys s = (walk_sound m keys s, walk_complete)

set_locale_failed :
    (fs : Files) (locale : String) (i : Manager)
    → first_loaded fs locale (possible_paths fs) ≡ none
    → set_locale fs locale i ≡ (
      some (error ("failed to find i18n file for locale " +++ locale)),
      record i { locale = locale },
    )
unfolding set_locale load_messages
set_locale_failed fs locale i missing = rw (missing, load_messages)

loaded_messages :
    (fs : Files) (locale : String) (i : Manager) (m : Messages)
    → first_loaded fs locale (possible_paths fs) ≡ some m
    → load_messages fs locale i ≡ (none, record i { messages = m })
unfolding load_messages
loaded_messages fs locale i m found = rw (found, load_messages) refl

loaded_manager :
    (fs : Files) (locale : String) (m : Messages)
    → first_loaded fs locale (possible_paths fs) ≡ some m
    → new_manager fs locale ≡ ok (record { messages = m; locale = locale })
unfolding new_manager
loaded_manager fs locale m found =
    let loaded = loaded_messages fs locale (record { messages = nil; locale = locale }) m found in
    rw (loaded, new_manager, loaded) refl

-- When no file of a locale can be loaded, SetLocale reports an error and yet changes the locale. If a
-- file of that locale, which is not the manager's before, can be loaded later, then a request for the
-- locale is answered from that file by a manager on which SetLocale was not called, and from the old
-- messages by the one on which it failed.
pub set_locale_drift :
    (fs later : Files) (locale key : String) (i : Manager) (ctx : Context) (m : Messages)
    → first_loaded fs locale (possible_paths fs) ≡ none
    → first_loaded later locale (possible_paths later) ≡ some m
    → locale ≢ i.locale
    → ((e : Error) × ((set_locale fs locale i).0 ≡ some e))
      × ((translate_with_context later (set_locale_in_context ctx locale) key (some i)).0
          ≡ get_message m key)
      × ((translate_with_context later
            (set_locale_in_context ctx locale)
            key
            (some (set_locale fs locale i).1)).0
          ≡ get_message i.messages key)
unfolding translate_with_context manager_for set_locale_in_context get_locale_from_context
    get_global
set_locale_drift fs later locale key i ctx m missing found apart = (
  (
    error ("failed to find i18n file for locale " +++ locale),
    rw (set_locale_failed fs locale i missing) refl,
  ),
  elim (Bool-cases (locale == i.locale)) [
    | inl same ↦ absurd (apart ((eq_iff _ _).0 same))
    | inr e ↦ rw (e, loaded_manager later locale m found) refl
  ],
  rw (set_locale_failed fs locale i missing, eq_refl locale) refl,
)
