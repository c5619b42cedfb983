-- ===== src/Pipeline/Tracing.antt =====
-- pkg/middleware/tracing_middleware.go. A span is the list of the calls on it, in their order. The
-- propagator, the tracer and the texts of the statuses are parameters, and so is what the handler
-- answers for the context that it is given; its response is the state of the echo response then.
use Prim.Native.String.{count}
use text.Mathlib.TextLemmas.{length-append, length-eq-zero_iff}
use msa_core.Prelude.{
  ℕ, ◌<◌, ◌≡◌, refl, ap, String, Bool, true, false, ◌||◌, Option, none, some, List, [], ◌∷◌, ◌++◌,
  ◌==◌, leb, arith, eq_iff, ◌≢◌, Bool-cases, inl, inr, if◌then◌else◌,
}
use msa_core.Prelude.Text.{◌+++◌}
use msa_core.Prelude.Int.{ℤ}

pub record Incoming (C : Type 0) : Type 0 where
  pub method : String
  pub path : String
  pub url_path : String
  pub url : String
  pub user_agent : String
  pub content_length : ℤ
  pub real_ip : String
  pub context : C

pub record Answered (E : Type 0) : Type 0 where
  pub status : ℕ
  pub size : ℤ
  pub error : Option E

-- the keys of package semconv, and attributes with a key of the program's own
pub data Attribute : Type 0 where
  http_method http_url http_route : String → Attribute
  http_request_content_length http_response_content_length : ℤ → Attribute
  http_status_code : ℕ → Attribute
  string_attribute : String → String → Attribute

pub data SpanCall (E : Type 0) : Type 0 where
  set_attributes : List Attribute → SpanCall E
  status_error : String → SpanCall E
  status_ok : String → SpanCall E
  record_error : E → SpanCall E
  span_end : SpanCall E

-- what the handler under the middleware sees: its context, and whether a span stands in the echo
-- context under "span"
pub record Seen (C : Type 0) : Type 0 where
  pub context : C
  pub span_stored : Bool

unfoldable pub is_write_operation : String → Bool
is_write_operation method =
    method == "POST" || (method == "PUT" || (method == "DELETE" || method == "PATCH"))

unfoldable pub span_name : {C : Type 0} → Incoming C → String
span_name r =
    let name = r.method +++ (" " +++ r.path) in
    if name == " " then r.method +++ (" " +++ r.url_path) else name

abbrev client_ip : String → List Attribute
client_ip ip = string_attribute "http.client_ip" ip ∷ []

module _ {E : Type 0} where
  unfoldable pub before_calls : {C : Type 0} → Incoming C → List (SpanCall E)
  before_calls r =
      set_attributes (
        http_method r.method
        ∷ http_url r.url
        ∷ http_route r.path
        ∷ string_attribute "http.user_agent" r.user_agent
        ∷ http_request_content_length r.content_length
        ∷ [])
      ∷ (if r.real_ip == "" then [] else set_attributes (client_ip r.real_ip) ∷ [])

  abbrev recorded : Option E → List (SpanCall E)
  recorded none = []
  recorded (some e) = record_error e ∷ []

  unfoldable pub span_status : (ℕ → String) → ℕ → SpanCall E
  span_status status_text status =
      if leb 400 status
      then status_error (status_text status)
      else status_ok "Request processed successfully"

  unfoldable pub after_calls : (ℕ → String) → Answered E → List (SpanCall E)
  after_calls status_text a =
      set_attributes (http_status_code a.status ∷ http_response_content_length a.size ∷ [])
      ∷ span_status status_text a.status
      ∷ (recorded a.error ++ (span_end ∷ []))

module _ {C E : Type 0} where
  -- the answer, and the calls on the span, if there is one
  unfoldable pub traced :
      (ℕ → String)
      → (C → C)
      → (C → String → C)
      → (Seen C → Answered E)
      → Incoming C
      → Answered E × Option (List (SpanCall E))
  traced status_text extract start next r =
      if is_write_operation r.method
      then (let a =
            next
              (record { context = start (extract r.context) (span_name r); span_stored = true }) in
          (a, some (before_calls r ++ after_calls status_text a)))
      else (next (record { context = r.context; span_stored = false }), none)

blank_name : (method path : String) → method +++ (" " +++ path) ≡ " " → method ≡ ""
blank_name method path h =
    let whole = ap count h in
    let parts = length-append method (" " +++ path) in
    let rest = length-append " " path in (length-eq-zero_iff).0 (omega arith)

write_method_named : (method : String) → is_write_operation method ≡ true → method ≢ ""
unfolding is_write_operation
write_method_named method write e = cc (ap is_write_operation e)

write_method_lem :
    (method path : String)
    → is_write_operation method ≡ true
    → ((method +++ (" " +++ path)) == " ") ≡ false
write_method_lem method path write = elim (Bool-cases ((method +++ (" " +++ path)) == " ")) [
  | inl h ↦ absurd (write_method_named method write (blank_name method path ((eq_iff _ _).0 h)))
  | inr h ↦ h
]

-- For the operations that are traced the name is the method and the route, also where the route is
-- empty.
span_name_lem :
    {C : Type 0} (r : Incoming C)
    → is_write_operation r.method ≡ true
    → span_name r ≡ r.method +++ (" " +++ r.path)
unfolding span_name
span_name_lem r write = rw (write_method_lem r.method r.path write) refl

-- A handler that answers an error while the response has still a status below 400 leaves a span
-- whose status is Ok and which records the error.
error_marked_ok :
    {E : Type 0} (status_text : ℕ → String) (a : Answered E) (e : E)
    → a.status < 400
    → a.error ≡ some e
    → after_calls status_text a
      ≡ set_attributes (http_status_code a.status ∷ http_response_content_length a.size ∷ [])
        ∷ status_ok "Request processed successfully"
        ∷ record_error e
        ∷ span_end
        ∷ []
unfolding after_calls span_status
error_marked_ok status_text a e low failed = rw failed (ground arith)
