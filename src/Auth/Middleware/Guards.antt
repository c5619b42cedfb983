-- ===== src/Auth/Middleware/Guards.antt =====
-- When a request passes the guards, one by one and chained.
use mathlib.Core.Path.{subst}
use msa_core.Prelude.{
  ℕ, ◌≡◌, refl, ◌≢◌, ap, sym, ◌∙◌, ◌⊎◌, inl, inr, String, true, false, none, some, List, [], ◌∷◌,
  ◌==◌, eq_iff, arith, contains, is_empty, if◌then◌else◌, Bool-cases, Option-cases,
}
use msa_core.Prelude.Text.{◌+++◌, strip_prefix}
use msa_core.Prelude.Text.Prefix.{strip_prefix_iff}
use msa_core.Prelude.Result.{Result, ok, Result-cases}
use msa_core.Context.{with_user_id, with_sid}
use msa_core.Auth.Claims.{JwtClaims}
use msa_core.Auth.Middleware.{
  EchoContext, Outcome, refused, refused_message, handled, HandlerFunc, with_principal, with_claims,
  require_auth, scope_checked, require_scope, role_checked, require_role,
}

abbrev pub Refused : {A : Type 0} → ℕ → Outcome A → Type 0
Refused n (refused m e d) = m ≡ n
Refused n (refused_message m e) = m ≡ n
Refused n (handled a) = ⊥

-- the header carries a token, and the service accepts it with these claims
abbrev pub Bearer : (String → Result JwtClaims) → EchoContext → JwtClaims → Type 0
Bearer validate c claims =
    (token : String) × (c.authorization ≡ "Bearer " +++ token)
    × (token ≢ "")
    × (validate token ≡ ok claims)

-- the context that the handler gets behind all three guards
abbrev pub admitted : JwtClaims → EchoContext → EchoContext
admitted claims c = record (with_principal claims c) { roles = some claims.user.roles }

module _ {A : Type 0} (validate : String → Result JwtClaims) where
  with_claims_pass :
      (c : EchoContext) (claims : JwtClaims) (next : JwtClaims → Outcome A)
      → Bearer validate c claims
      → with_claims validate c next ≡ next claims
  unfolding with_claims strip_prefix
  with_claims_pass c claims next (token, header, named, valid) =
      let found = (strip_prefix_iff "Bearer " c.authorization token).1 header in
      let some_header : (c.authorization == "") ≡ false =
        elim (Bool-cases (c.authorization == "")) [
          | inl h ↦
              let e : c.authorization ≡ "" = ground (arith, eq_iff c.authorization "") in
              let f = ap (λ s. strip_prefix "Bearer " s) (sym e) ∙ found in ground arith
          | inr h ↦ h
        ] in
      let some_token : (token == "") ≡ false = ground (arith, eq_iff token "") in
      rw (some_header, found, some_token, valid) refl

  with_claims_split :
      (c : EchoContext) (next : JwtClaims → Outcome A)
      → ((claims : JwtClaims) × Bearer validate c claims
          × (with_claims validate c next ≡ next claims))
        ⊎ Refused 401 (with_claims validate c next)
  unfolding with_claims
  with_claims_split c next = elim (Bool-cases (c.authorization == "")) [
    | inl h ↦ inr (rw h refl)
    | inr h ↦ elim (Option-cases (strip_prefix "Bearer " c.authorization)) [
      | inl missing ↦ inr (rw (h, missing) refl)
      | inr (token, found) ↦ elim (Bool-cases (token == "")) [
        | inl empty ↦ inr (rw (h, found, empty) refl)
        | inr named ↦ elim (Result-cases (validate token)) [
          | inl (claims, valid) ↦
              let bearer : Bearer validate c claims = (
                token,
                (strip_prefix_iff "Bearer " c.authorization token).0 found,
                ground (arith, eq_iff token ""),
                valid,
              ) in
              inl (claims, bearer, with_claims_pass c claims next bearer)
          | inr (e, invalid) ↦ inr (rw (h, found, named, invalid) refl)
        ]
      ]
    ]
  ]

no-Bearer :
    (validate : String → Result JwtClaims) (c : EchoContext)
    → Refused 401 (with_claims validate c handled)
    → (claims : JwtClaims) → ¬ (Bearer validate c claims)
no-Bearer validate c r claims bearer =
    subst (Refused 401) (with_claims_pass validate c claims handled bearer) r

module _ {A : Type 0} (validate : String → Result JwtClaims) where
  -- the shared block goes on with a bearer token that is valid, and refuses if there is none
  with_claims_cases :
      (c : EchoContext) (next : JwtClaims → Outcome A)
      → ((claims : JwtClaims) × Bearer validate c claims
          × (with_claims validate c next ≡ next claims))
        ⊎ (((claims : JwtClaims) → ¬ (Bearer validate c claims))
            × Refused 401 (with_claims validate c next))
  with_claims_cases c next = elim (with_claims_split validate c handled) [
    | inl (claims, bearer, _) ↦ inl (claims, bearer, with_claims_pass validate c claims next bearer)
    | inr r ↦ elim (with_claims_split validate c next) [
      | inl (claims, bearer, e) ↦ absurd (no-Bearer validate c r claims bearer)
      | inr q ↦ inr (no-Bearer validate c r, q)
    ]
  ]

  -- RequireAuth runs the handler, with the principal of the claims in the request's context, for a
  -- bearer token that the service accepts; without one the answer is 401 and the handler is not
  -- run.
  pub require_auth_lem :
      (next : HandlerFunc A) (c : EchoContext)
      → ((claims : JwtClaims) × Bearer validate c claims
          × (require_auth validate next c ≡ next (with_principal claims c)))
        ⊎ (((claims : JwtClaims) → ¬ (Bearer validate c claims))
            × Refused 401 (require_auth validate next c))
  unfolding require_auth
  require_auth_lem next c = with_claims_cases c (λ claims. next (with_principal claims c))

  scope_after_auth :
      (s : String) (next : HandlerFunc A) (c : EchoContext) (claims : JwtClaims)
      → Bearer validate c claims
      → require_scope validate s next (with_principal claims c)
        ≡ scope_checked validate s next claims.scopes (with_principal claims c)
  unfolding require_scope with_principal with_sid with_user_id
  scope_after_auth s next c claims bearer = elim (Bool-cases (is_empty claims.scopes)) [
    | inl h ↦ rw h (
        with_claims_pass validate (with_principal claims c) claims
          (λ d. scope_checked validate s next d.scopes (with_principal d (with_principal claims c)))
          bearer)
    | inr h ↦ rw h refl
  ]

  role_after_auth :
      (r : String) (next : HandlerFunc A) (c : EchoContext) (claims : JwtClaims)
      → c.roles ≡ none
      → Bearer validate c claims
      → require_role validate r next (with_principal claims c)
        ≡ role_checked validate r next claims.user.roles (admitted claims c)
  unfolding require_role with_principal with_sid with_user_id with_claims
  role_after_auth r next c claims fresh bearer = elim (Bool-cases (is_empty claims.user.roles)) [
    | inl h ↦
        simp (fresh, h)
          (with_claims_pass validate (with_principal claims c) claims
            (λ d.
              role_checked validate r next d.user.roles
                (record (with_principal d (with_principal claims c)) { roles = some d.user.roles }))
            bearer)
    | inr h ↦ simp (fresh, h) refl
  ]

  abbrev pub guarded : String → String → HandlerFunc A → HandlerFunc A
  guarded s r next = require_auth validate (require_scope validate s (require_role validate r next))

  role_cases :
      (r : String) (next : HandlerFunc A) (roles : List String) (c : EchoContext)
      → ((contains roles r ≡ true) × (role_checked validate r next roles c ≡ next c))
        ⊎ ((contains roles r ≡ false) × Refused 403 (role_checked validate r next roles c))
  unfolding role_checked
  role_cases r next [] c = inr (refl, refl)
  role_cases r next (x ∷ roles) c = elim (Bool-cases (contains (x ∷ roles) r)) [
    | inl h ↦ inl (h, rw h refl)
    | inr h ↦ inr (h, rw h refl)
  ]

  guarded_at :
      (s r : String) (next : HandlerFunc A) (c : EchoContext) (claims : JwtClaims)
      → c.roles ≡ none
      → Bearer validate c claims
      → guarded s r next c ≡ (
          if contains claims.scopes s
          then role_checked validate r next claims.user.roles (admitted claims c)
          else refused 403 "insufficient_scope" ("Insufficient scope. Required: " +++ s))
  unfolding require_auth scope_checked
  guarded_at s r next c claims fresh bearer =
      with_claims_pass validate c claims
        (λ d. require_scope validate s (require_role validate r next) (with_principal d c)) bearer
      ∙ (scope_after_auth s (require_role validate r next) c claims bearer
          ∙ ap
              (λ x.
                if contains claims.scopes s
                then x
                else refused 403 "insufficient_scope" ("Insufficient scope. Required: " +++ s))
              (role_after_auth r next c claims fresh bearer))

  -- A route behind RequireAuth, RequireScope and RequireRole, in this order, on a request with no
  -- stored roles. It runs the handler, with the claims' principal and roles stored, for a bearer
  -- token that the service accepts and whose claims have the scope, and whose user has the role;
  -- it answers 403 when the token is accepted and one of the two is missing; and 401 in every other
  -- case. The handler is run in no other way.
  pub guarded_chain :
      (s r : String) (next : HandlerFunc A) (c : EchoContext)
      → c.roles ≡ none
      → ((claims : JwtClaims) × Bearer validate c claims
          × (((contains claims.scopes s ≡ true)
                × (contains claims.user.roles r ≡ true)
                × (guarded s r next c ≡ next (admitted claims c)))
              ⊎ (((contains claims.scopes s ≡ false) ⊎ (contains claims.user.roles r ≡ false))
                  × Refused 403 (guarded s r next c))))
        ⊎ (((claims : JwtClaims) → ¬ (Bearer validate c claims)) × Refused 401 (guarded s r next c))
  unfolding require_auth
  guarded_chain s r next c fresh =
      elim (with_claims_cases c
        (λ d. require_scope validate s (require_role validate r next) (with_principal d c))) [
          | inl (claims, bearer, _) ↦ inl (
            claims,
            bearer,
            elim (Bool-cases (contains claims.scopes s)) [
              | inl h ↦ elim (role_cases r next claims.user.roles (admitted claims c)) [
                | inl (k, e) ↦ inl (h, k, guarded_at s r next c claims fresh bearer ∙ rw h e)
                | inr (k, q) ↦ inr (inr k, rw (guarded_at s r next c claims fresh bearer, h) q)
              ]
              | inr h ↦ inr (inl h, rw (guarded_at s r next c claims fresh bearer, h) refl)
            ],
          )
          | inr (lacks, q) ↦ inr (lacks, q)
        ]
