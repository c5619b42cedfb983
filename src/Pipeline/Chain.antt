-- ===== src/Pipeline/Chain.antt =====
-- The three middlewares in the order of the README: ResponseHandler, then ErrorHandler, then
-- ValidationErrorHandler, then the handler of the route.
use mathlib.Core.Path.{subst}
use msa_core.Prelude.{
  ℕ, ◌-◌, ◌≡◌, ◌≢◌, refl, ap, sym, ◌∙◌, Bool, true, false, Option, none, some, List, [], ◌∷◌, ◌++◌,
  nat_beq, if◌then◌else◌, arith,
}
use msa_core.Prelude.Int.{pos}
use msa_core.Prelude.Run.{Run, panic, ret, type_assertion, ◌>>=◌}
use msa_core.Response.{success_response, create_error_response, internal_error, validation_error}
use msa_core.Pipeline.{
  Message, text, other, started, Body, success, failure, HandlerError, http_error, plain, Request,
  Handler, Json, message_or, header_time, wrapped, response_handler, answered, error_handler,
  unless_failed, validation_answer, validation_error_handler,
}

abbrev pub chain : {D : Type 0} → Json D → Handler D → Handler D
chain json h = response_handler json (error_handler json (validation_error_handler json h))

-- What echo documents of c.JSON when the value can be encoded.
abbrev pub Writes : {D : Type 0} → Json D → Type 0
Writes {D} json =
    (code : ℕ) (b : Body D) (c : Request D)
    → json code b c ≡ (none, record c { written = c.written ++ (code, b) ∷ []; status = code })

-- the call returns without an error, and has written one response
abbrev pub One : {D : Type 0} → Run (Option (HandlerError D) × Request D) → ℕ → Body D → Type 0
One {D} result code b = (c : Request D) × (result ≡ ret (none, c)) × (c.written ≡ (code, b) ∷ [])

abbrev pub OnSuccess :
    {D : Type 0} → Run (Option (HandlerError D) × Request D) → ℕ → Request D → Option D → Type 0
OnSuccess result start c none = result ≡ ret (none, c)
OnSuccess result start c (some d) = One result 200 (
    success
      (record (success_response c.clock (some d) (message_or "Thành công" c.response_message)) {
        processing_time = pos (c.clock - start);
      }))

abbrev pub OnHttpError :
    {D : Type 0} → Run (Option (HandlerError D) × Request D) → Request D → ℕ → Message D → Type 0
OnHttpError result c code (text m) = One result code (
    failure
      (record (create_error_response c.clock (pos code) m []) { processing_time = header_time c }))
OnHttpError result c code (other d) = result ≡ panic type_assertion

-- what comes of the way in which the handler has ended, with the context that it leaves
abbrev pub Answers :
    {D : Type 0}
    → Run (Option (HandlerError D) × Request D)
    → ℕ
    → Request D
    → Option (HandlerError D)
    → Type 0
Answers result start c none = OnSuccess result start c c.response_data
Answers result start c (some (plain e)) = One result 500 (
    failure (record (internal_error c.clock "Lỗi hệ thống không xác định") {
      processing_time = header_time c;
    }))
Answers result start c (some (http_error code m)) =
    if nat_beq code 400
    then One result 400 (
        failure
          (record (validation_error c.clock "Dữ liệu không hợp lệ" []) { processing_time = pos 0 }))
    else OnHttpError result c code m

-- an HTTP error says that something is wrong
abbrev pub NotOk : {D : Type 0} → Option (HandlerError D) → Type 0
NotOk none = Unit
NotOk (some (plain e)) = Unit
NotOk (some (http_error code m)) = code ≢ 200

module _ {D : Type 0} (json : Json D) where
  chain_of :
      (h : Handler D) (c c' : Request D) (r : Option (HandlerError D))
      → h (record c { start_time = some (started c.clock) }) ≡ ret (r, c')
      → chain json h c
        ≡ (answered json (validation_answer json (r, c')) >>= unless_failed json c.clock)
  unfolding response_handler error_handler validation_error_handler
  chain_of h c c' r e = rw e refl

  -- a response that has been written with a status other than 200 stays the only one
  replied_once :
      (start code : ℕ) (b : Body D) (c : Request D)
      → Writes json
      → c.written ≡ []
      → nat_beq code 200 ≡ false
      → One (unless_failed json start (json code b c)) code b
  unfolding wrapped
  replied_once start code b c writes w bad =
      let c3 : Request D = record c { written = c.written ++ (code, b) ∷ []; status = code } in
      (
        c3,
        ap (λ (o : Option (HandlerError D) × Request D). unless_failed json start o)
              (writes code b c)
            ∙ rw bad refl,
        ap (λ (l : List (ℕ × Body D)). l ++ (code, b) ∷ []) w,
      )

  answered_once :
      (start code : ℕ) (b : Body D) (c : Request D)
      → Writes json
      → c.written ≡ []
      → nat_beq code 200 ≡ false
      → One (answered json (json code b c) >>= unless_failed json start) code b
  unfolding wrapped
  answered_once start code b c writes w bad =
      let c3 : Request D = record c { written = c.written ++ (code, b) ∷ []; status = code } in
      (
        c3,
        ap
              (λ (o : Option (HandlerError D) × Request D).
                answered json o >>= unless_failed json start)
              (writes code b c)
            ∙ rw bad refl,
        ap (λ (l : List (ℕ × Body D)). l ++ (code, b) ∷ []) w,
      )

  wrapped_value :
      (start : ℕ) (c : Request D) (d : D)
      → c.status ≡ 200
      → c.response_data ≡ some d
      → wrapped json start c
        ≡ json 200
            (success
              (record (success_response c.clock
                (some d)
                (message_or "Thành công" c.response_message)) {
                  processing_time = pos (c.clock - start);
                }))
            c
  unfolding wrapped
  wrapped_value start c d ok e = simp (ok, e)

  on_success :
      (start : ℕ) (c : Request D) (d : Option D)
      → Writes json
      → c.response_data ≡ d
      → c.written ≡ []
      → c.status ≡ 200
      → OnSuccess (ret (wrapped json start c)) start c d
  unfolding wrapped
  on_success start c none writes e w ok = simp (ok, e)
  on_success start c (some d) writes e w ok =
      let body : Body D =
        success
          (record (success_response c.clock (some d) (message_or "Thành công" c.response_message)) {
            processing_time = pos (c.clock - start);
          }) in
      (
        record c { written = c.written ++ (200, body) ∷ []; status = 200 },
        ap ret (wrapped_value start c d ok e ∙ writes 200 body c),
        ap (λ (l : List (ℕ × Body D)). l ++ (200, body) ∷ []) w,
      )

  on_http_error :
      (start code : ℕ) (m : Message D) (c : Request D) (b : Bool)
      → nat_beq code 400 ≡ b
      → Writes json
      → c.written ≡ []
      → code ≢ 200
      → Answers
          (answered json (validation_answer json (some (http_error code m), c))
            >>= unless_failed json start)
          start
          c
          (some (http_error code m))
  on_http_error start code m c true e writes w ne = rw e (
      answered_once start 400
        (failure
          (record (validation_error c.clock "Dữ liệu không hợp lệ" []) { processing_time = pos 0 }))
        c writes w refl)
  on_http_error start code (text m) c false e writes w ne = rw e (
      replied_once start code
        (failure (record (create_error_response c.clock (pos code) m []) {
          processing_time = header_time c;
        }))
        c writes w (ground arith))
  on_http_error start code (other d) c false e writes w ne = rw e refl

  by_result :
      (start : ℕ) (r : Option (HandlerError D)) (c : Request D)
      → Writes json
      → c.written ≡ []
      → c.status ≡ 200
      → NotOk r
      → Answers
          (answered json (validation_answer json (r, c)) >>= unless_failed json start)
          start
          c
          r
  by_result start none c writes w ok not_ok = on_success start c c.response_data writes refl w ok
  by_result start (some (plain e)) c writes w ok not_ok =
      replied_once start 500
        (failure (record (internal_error c.clock "Lỗi hệ thống không xác định") {
          processing_time = header_time c;
        }))
        c writes w refl
  by_result start (some (http_error code m)) c writes w ok not_ok =
      on_http_error start code m c (nat_beq code 400) refl writes w not_ok

-- In the order of the README (ResponseHandler, ErrorHandler, ValidationErrorHandler, handler), for a
-- handler that has written nothing and left the status at 200, and whose HTTP error, if it has one, is
-- not of status 200: the call gives no error and writes at most one response. A handler that
-- succeeds has its data wrapped, in a response of status 200 with the time since the start, or
-- nothing is written if it has set none. A handler that fails has one response written: for an HTTP
-- error of status 400 the fixed message of a validation error; for another one its status and its
-- message, or a panic if the message is not a text; for any other error status 500 and a fixed
-- message. c.JSON writes the response and sets the status.
pub chain-Answers :
    {D : Type 0} (json : Json D) (h : Handler D) (c c' : Request D) (r : Option (HandlerError D))
    → Writes json
    → h (record c { start_time = some (started c.clock) }) ≡ ret (r, c')
    → c'.written ≡ []
    → c'.status ≡ 200
    → NotOk r
    → Answers (chain json h c) c.clock c' r
chain-Answers json h c c' r writes e w ok not_ok =
    subst (λ (x : Run _). Answers x c.clock c' r) (sym (chain_of json h c c' r e))
      (by_result json c.clock r c' writes w ok not_ok)
