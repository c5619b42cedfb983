-- ===== src/Controller/Status.antt =====
-- What Error answers, and in which language the replies are written.
use msa_core.Prelude.{
  ℕ, ◌+◌, ◌<◌, ◌≡◌, refl, ap, sym, ◌∙◌, Bool, true, false, ◌||◌, String, Option, some, List, [],
  ◌∷◌, ◌==◌, arith, if◌then◌else◌, Bool-cases, inl, inr,
}
use msa_core.Response.Code
use msa_core.Prelude.Int.{ℤ, negsuc, pos_part, beq_ℤ, beq_ℤ-eq, pos, int64_half}
use msa_core.Prelude.Run.{ret}
use msa_core.I18n.Messages.{Messages, get_message}
use msa_core.I18n.Manager.{
  Files, Manager, Global, possible_paths, first_loaded, load_messages, set_locale, get_global,
  translate,
}
use msa_core.I18n.Locale.{get_locale_from_header}
use msa_core.Response.{
  BaseResponse, ErrorResponse, create_error_response, create_error_response_i18n,
  success_response_with_pagination_i18n, validation_error_i18n, not_found_error_i18n,
  unauthorized_error_i18n, internal_error_i18n, conflict_error_i18n,
}
use msa_core.Response.Pagination.{pagination_of, calculate_pagination_ret}
use msa_core.Controller.Reply.{
  Request, success, failure, status_of, default_error, translated_error, error_body,
  with_header_locale, fail, success_with_pagination,
}

unfoldable pub has_code : List ℕ → ℤ → Bool
has_code [] n = false
has_code (c ∷ cs) n = beq_ℤ n (pos c) || has_code cs n

-- the codes that Error also uses as the status
abbrev pub status_codes : List ℕ
status_codes = 400 ∷ 401 ∷ 403 ∷ 404 ∷ 409 ∷ 500 ∷ []

status_of_lem : (n : ℤ) → status_of n ≡ (if has_code status_codes n then pos_part n else 500)
unfolding status_of has_code
status_of_lem (pos n) = ground arith
status_of_lem (negsuc n) = refl

set_locale-locale : (fs : Files) (l : String) (i : Manager) → (set_locale fs l i).1.locale ≡ l
unfolding set_locale load_messages
set_locale-locale fs l i = ground arith

set_locale-messages :
    (fs : Files) (l : String) (i : Manager) (m : Messages)
    → first_loaded fs l (possible_paths fs) ≡ some m
    → (set_locale fs l i).1.messages ≡ m
unfolding set_locale load_messages
set_locale-messages fs l i m e = ground arith

module _ (fs : Files) (now : ℕ) where
  default_error_keeps :
      (e : ErrorResponse) (i : Manager)
      → ((default_error fs now e (some i)).0.code ≡ e.code)
        × ((default_error fs now e (some i)).1 ≡ some i)
  unfolding default_error validation_error_i18n not_found_error_i18n unauthorized_error_i18n
      internal_error_i18n conflict_error_i18n create_error_response_i18n create_error_response
      translate get_global
  default_error_keeps e i = ground (
    arith,
    beq_ℤ-eq e.code Code.validation_error,
    beq_ℤ-eq e.code Code.not_found,
    beq_ℤ-eq e.code Code.unauthorized,
    beq_ℤ-eq e.code Code.internal_error,
    beq_ℤ-eq e.code Code.conflict,
  )

  translated_error_keeps :
      (e : ErrorResponse) (i : Manager)
      → ((translated_error fs now e (some i)).0.code ≡ e.code)
        × ((translated_error fs now e (some i)).1 ≡ some i)
  unfolding translated_error create_error_response_i18n create_error_response translate get_global
  translated_error_keeps e i = elim (Bool-cases (e.message == "")) [
    | inl h ↦ simp h (default_error_keeps e i)
    | inr h ↦ simp h (refl, refl)
  ]

  error_body_keeps :
      (e : ErrorResponse) (custom : Bool) (i : Manager)
      → ((error_body fs now e custom (some i)).0.code ≡ e.code)
        × ((error_body fs now e custom (some i)).1 ≡ some i)
  unfolding error_body create_error_response_i18n create_error_response translate get_global
  error_body_keeps e true i = let (_, kept) = translated_error_keeps e i in (refl, rw kept refl)
  error_body_keeps e false i = translated_error_keeps e i

  -- Error answers with the error's own code in the body. The status is that code if it is one of
  -- 400, 401, 403, 404, 409 and 500, and 500 for every other code. Afterwards the global manager
  -- has the locale of the request's header.
  pub fail_lem :
      {D : Type 0} (c : Request) (e : ErrorResponse) (custom : Bool) (g : Global)
      → (body : ErrorResponse) × (i : Manager) × (fail {D = D} fs now c e custom g ≡ (
        ret (failure (if has_code status_codes e.code then pos_part e.code else 500) body),
        some i,
      ))
        × (body.code ≡ e.code)
        × (i.locale ≡ get_locale_from_header c.accept_language)
  unfolding fail with_header_locale
  fail_lem c e custom g =
      let l = get_locale_from_header c.accept_language in
      let i = (set_locale fs l (get_global fs g)).1 in
      let (code, kept) = error_body_keeps e custom i in
      (
        (error_body fs now e custom (some i)).0,
        i,
        rw (sym (status_of_lem e.code), kept) refl,
        code,
        set_locale-locale fs l (get_global fs g),
      )

  abbrev pub paginated : {D : Type 0} → Option D → ℕ → ℕ → ℕ → String → BaseResponse D
  paginated v p n t message = record {
    code = pos 200;
    message = message;
    content = v;
    pagination = some (pagination_of p n t);
    timestamp = now;
    processing_time = pos 0;
  }

  success_with_pagination-some :
      {D : Type 0} (d : Request) (i : Manager) (v : Option D) (p n t : ℕ) (key : String)
      → 0 < n
      → t + n < int64_half
      → (success_with_pagination fs now d v (pos t) (pos p) (pos n) key (some i)).0
        ≡ ret (success 200 (paginated v p n t (get_message i.messages key)))
  unfolding success_with_pagination success_response_with_pagination_i18n translate get_global
  success_with_pagination-some d i v p n t key pos_n small =
      rw (calculate_pagination_ret p n t pos_n small, success_with_pagination) refl

  -- After Error has answered a request whose header asks for a locale that loads, the next
  -- paginated answer to any request has its message from that locale's file: Error changes the
  -- global manager, and SuccessWithPagination reads that manager and not the request's header. The
  -- page size is positive, and the total with it fits an int64.
  pub paginated_after_error :
      {D : Type 0} (c d : Request) (e : ErrorResponse) (custom : Bool) (g : Global) (m : Messages)
      (v : Option D) (p n t : ℕ) (key : String)
      → first_loaded fs (get_locale_from_header c.accept_language) (possible_paths fs) ≡ some m
      → 0 < n
      → t + n < int64_half
      → (success_with_pagination fs now d v
          (pos t)
          (pos p)
          (pos n)
          key
          (fail {D = D} fs now c e custom g).1).0
        ≡ ret (success 200 (paginated v p n t (get_message m key)))
  unfolding fail with_header_locale
  paginated_after_error c d e custom g m v p n t key loads pos_n small =
      let l = get_locale_from_header c.accept_language in
      let i = (set_locale fs l (get_global fs g)).1 in
      let (code, kept) = error_body_keeps e custom i in
      ap (λ h. (success_with_pagination fs now d v (pos t) (pos p) (pos n) key h).0) kept
      ∙ (success_with_pagination-some d i v p n t key pos_n small
          ∙ ap (λ x. ret (success 200 (paginated v p n t (get_message x key))))
              (set_locale-messages fs l (get_global fs g) m loads))
