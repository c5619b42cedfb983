-- ===== src/Redis/Structs/Laws.antt =====
-- Values stored as JSON in a hash, and what HGet says of the server's errors.
use msa_core.Prelude.{
  String, ◌≡◌, ◌≢◌, ◌⊎◌, inl, inr, refl, ap, sym, ◌∙◌, eq_iff, arith, Bool-cases, ◌==◌,
}
use msa_core.Prelude.Int.{ℤ}
use msa_core.Prelude.Result.{Error, Result, ok, err, Result-cases}
use msa_core.Prelude.Text.{◌+++◌}
use msa_core.Redis.{
  RedisClient, Mode, then_value, Outcome, value, absent, failed, panics, text, number, Server,
  encoded, h_set_command, h_get_command,
}
use msa_core.Redis.Hashes.{h_set, h_get, val_or, nil_if_empty}
use msa_core.Redis.Structs.{h_set_struct, h_get_struct, h_get_typed, h_get_struct_typed}
use msa_core.Redis.Structs.Connected.{Connected, client, h_get_up, h_set_up, h_set_done}

-- What Redis documents of HSET and HGET: after an HSET that answers with a number, and not with an
-- error, the field holds the text that was stored.
abbrev pub StoresField : {V F S : Type 0} → Server V F S → Type 0
StoresField {V} {F} {S} srv =
    (k h j : String) (s : S) (n : ℤ)
    → (srv.run number (h_set_command k (encoded h) (encoded j)) s).0 ≡ value n
    → (srv.run text (h_get_command k h)
        (srv.run number (h_set_command k (encoded h) (encoded j)) s).1).0
      ≡ value j

nil_if_empty-nonempty : (j : String) → j ≢ "" → nil_if_empty j ≡ value j
nil_if_empty-nonempty j ne = ground (arith, eq_iff j "")

nonempty_json :
    {E : Type 0} (unmarshal : String → Result E) (j : String) (e : E) (x : Error)
    → unmarshal j ≡ ok e
    → unmarshal "" ≡ err x
    → j ≢ ""
nonempty_json unmarshal j e x h k p = cc

value_cases : {A : Type 0} (o : Outcome A) → ((a : A) × (o ≡ value a)) ⊎ ((a : A) → o ≢ value a)
value_cases (value a) = inl (a, refl)
value_cases absent = inr (λ a e. cc)
value_cases (failed x) = inr (λ a e. cc)
value_cases panics = inr (λ a e. cc)

-- `HSET` of a text under the client's prefix, and the server after it
abbrev pub hset : {V F S : Type 0} → Server V F S → String → String → String → S → Outcome ℤ × S
hset srv key h j s = srv.run number (h_set_command key (encoded h) (encoded j)) s

-- HSetStruct of the value as text `j`: the value is read back by both methods, or the call reports
-- that the server has not answered with a number
abbrev pub SetText :
    {V F S : Type 0}
    → Server V F S
    → RedisClient
    → (V → Result String)
    → (String → Result V)
    → String
    → String
    → String
    → V
    → S
    → Type 0
SetText {V} {F} {S} srv c marshal unmarshal j key h v s =
    ((n : ℤ) × (s' : S) × ((hset srv (c.prefix +++ key) h j s).0 ≡ value n)
      × (h_set_struct srv c marshal key h v s ≡ (value tt, s'))
      × ((h_get_typed srv c unmarshal key h s').0 ≡ value v)
      × ((h_get_struct_typed srv c unmarshal key h s').0 ≡ value v))
    ⊎ (((n : ℤ) → (hset srv (c.prefix +++ key) h j s).0 ≢ value n)
        × ((h_set_struct srv c marshal key h v s).0 ≢ value tt))

module _ {V F S : Type 0} (srv : Server V F S) (marshal : V → Result String)
    (unmarshal : String → Result V) (stores : StoresField srv) (x : Error)
    (refuses : unmarshal "" ≡ err x) (mode : Mode) (prefix key h j : String) (v : V) (s : S)
    (up : Connected mode) (m : marshal v ≡ ok j) where
  set_struct_as :
      h_set_struct srv (client mode prefix) marshal key h v s
      ≡ h_set srv (client mode prefix) key (encoded h) (encoded j) s
  unfolding h_set_struct
  set_struct_as = rw (m, h_set_struct)

  get_after :
      (n : ℤ)
      → (hset srv (prefix +++ key) h j s).0 ≡ value n
      → unmarshal j ≡ ok v
      → (h_get srv (client mode prefix) key h (hset srv (prefix +++ key) h j s).1).0 ≡ value j
  get_after n stored decodes =
      h_get_up srv mode prefix up key h (hset srv (prefix +++ key) h j s).1
      ∙ ap (λ (o : Outcome String). then_value nil_if_empty (val_or "" o))
          (stores (prefix +++ key) h j s n stored)
      ∙ nil_if_empty-nonempty j (nonempty_json unmarshal j v x decodes refuses)

  set_text : unmarshal j ≡ ok v → SetText srv (client mode prefix) marshal unmarshal j key h v s
  unfolding h_get_typed h_get_struct_typed h_get_struct
  set_text decodes = elim (value_cases (hset srv (prefix +++ key) h j s).0) [
    | inl (n, stored) ↦
        let found = get_after n stored decodes in
        inl (
          n,
          (hset srv (prefix +++ key) h j s).1,
          stored,
          set_struct_as ∙ h_set_up srv mode prefix up key h j s n stored,
          rw (found, decodes) refl,
          rw (found, decodes) refl,
        )
    | inr none_stored ↦ inr (
      none_stored,
      λ e.
          let done = h_set_done srv mode prefix up key h j s _ (
            sym set_struct_as
            ∙ ap
                (λ (o : Outcome (Unit {0})).
                  (o, (h_set_struct srv (client mode prefix) marshal key h v s).1))
                e) in
          none_stored done.0 done.1,
    )
  ]

-- HSetStruct of a value, through any client that is connected, ends in one of three ways. The value
-- cannot be encoded, and the encoder's error is reported. Or the server answers HSET of its text,
-- under the client's prefix, with a number: no error is reported, and HGetTyped and
-- HGetStructTyped of the same key and field then give that value. Or the server answers otherwise,
-- and the call does not succeed. The server keeps the text of a field that it has stored, the decoder
-- gives back what the encoder encoded, and it refuses an empty text, which HGet takes for a missing
-- field.
pub h_get_typed-h_set_struct :
    {V F S : Type 0} (srv : Server V F S) (marshal : V → Result String)
    (unmarshal : String → Result V)
    → StoresField srv
    → ((v : V) (j : String) → marshal v ≡ ok j → unmarshal j ≡ ok v)
    → (x : Error) → unmarshal "" ≡ err x
    → (mode : Mode) (prefix key h : String) (v : V) (s : S) → Connected mode
    → ((e : Error) × (marshal v ≡ err e)
        × (h_set_struct srv (client mode prefix) marshal key h v s ≡ (failed e, s)))
      ⊎ ((j : String) × (marshal v ≡ ok j)
          × SetText srv (client mode prefix) marshal unmarshal j key h v s)
unfolding h_set_struct
h_get_typed-h_set_struct srv marshal unmarshal stores decodes x r mode prefix key h v s up =
    elim (Result-cases (marshal v)) [
      | inl (j, m) ↦ inr (
        j,
        m,
        set_text srv marshal unmarshal stores x r mode prefix key h j v s up m (decodes v j m),
      )
      | inr (e, m) ↦ inl (e, m, rw (m, h_set_struct))
    ]

-- what HGet makes of the server's answer
abbrev pub Hidden : Outcome String → Outcome String → Type 0
Hidden answer got =
    ((v : String) × (answer ≡ value v) × (v ≢ "") × (got ≡ value v))
    ⊎ ((((answer ≡ value "") ⊎ ((answer ≡ absent) ⊎ ((x : Error) × (answer ≡ failed x))))
          × (got ≡ absent))
        ⊎ ((answer ≡ panics) × (got ≡ panics)))

nil_if_empty-Hidden : (w : String) → Hidden (value w) (nil_if_empty w)
nil_if_empty-Hidden w = elim (Bool-cases (w == "")) [
  | inl e ↦ inr (inl (inl (ap value ((eq_iff w "").0 e)), rw e refl))
  | inr e ↦ inl (w, refl, λ q. cc ((eq_iff w "").1 q), rw e refl)
]

val_or-Hidden : (r : Outcome String) → Hidden r (then_value nil_if_empty (val_or "" r))
val_or-Hidden (value w) = nil_if_empty-Hidden w
val_or-Hidden absent = inr (inl (inr (inl refl), refl))
val_or-Hidden (failed y) = inr (inl (inr (inr (y, refl)), refl))
val_or-Hidden panics = inr (inr (refl, refl))

-- HGet of a connected client hides the server's errors: either the server answers with a text that
-- is not empty, and HGet gives that text, or it gives redis.Nil, for an empty text, a missing field
-- and every failure alike. A panic of the call itself passes through.
pub h_get_lem :
    {V F S : Type 0} (srv : Server V F S) (mode : Mode) (prefix key h : String) (s : S)
    → Connected mode
    → Hidden
        (srv.run text (h_get_command (prefix +++ key) h) s).0
        (h_get srv (client mode prefix) key h s).0
h_get_lem srv mode prefix key h s up =
    rw (h_get_up srv mode prefix up key h s)
      (val_or-Hidden (srv.run text (h_get_command (prefix +++ key) h) s).0)
